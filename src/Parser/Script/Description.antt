-- ===== src/Parser/Script/Description.antt =====
-- A description block among the lines of a script's metadata.
use scriptmetakit.Chars.Lines.{join_lines}
use scriptmetakit.Chars.{Text, is_empty, text_eq}
use scriptmetakit.Parser.Blocks.{clean_metadata_line}
use scriptmetakit.Parser.Script.{
  ScriptMetadataFields, Reading, push_description_line, description_begin, description_end,
  plain_line, begin_description, end_description, read_clean, read_lines,
}
use scriptmetakit.Prelude.{
  true, false, List, [], ◌∷◌, ◌++◌, append_assoc, append-nil, some, map, All, ◌≡◌, refl, sym, ap,
  ◌∙◌,
}

-- A line that neither begins nor ends a description.
abbrev pub IsDescriptionLine : Text → Type 0
IsDescriptionLine raw_line =
    (text_eq (clean_metadata_line raw_line) description_begin ≡ false)
    × (text_eq (clean_metadata_line raw_line) description_end ≡ false)

-- Inside a description every line is pushed, the empty ones too.
read_clean_inside :
    (line : Text) (r : Reading)
    → r.in_description ≡ true
    → text_eq line description_begin ≡ false
    → text_eq line description_end ≡ false
    → read_clean line r ≡ push_description_line line r
unfolding read_clean plain_line is_empty
read_clean_inside [] r inside h k = rw (inside, read_clean) refl
read_clean_inside (c ∷ line) r inside h k = rw (h, read_clean) (rw k (rw (inside, plain_line) refl))

-- The lines, each behind a line break.
behind_breaks : List Text → Text
behind_breaks [] = []
behind_breaks (line ∷ rest) = 0xa ∷ (line ++ behind_breaks rest)

abbrev inside : Text → ScriptMetadataFields → Reading
inside description fields = record {
  fields = fields;
  description = description;
  description_needs_separator = true;
  in_description = true;
}

-- Outside a description again, with this text in the field.
abbrev closed : Text → ScriptMetadataFields → Reading
closed text fields = record {
  fields = record fields { description = some text };
  description = [];
  description_needs_separator = false;
  in_description = false;
}

join_lines-behind_breaks :
    (line : Text) (rest : List Text) → join_lines (line ∷ rest) ≡ line ++ behind_breaks rest
unfolding join_lines behind_breaks
join_lines-behind_breaks line [] = sym (append-nil line)
join_lines-behind_breaks line (next ∷ rest) =
    ap (λ l. line ++ (0xa ∷ l)) (join_lines-behind_breaks next rest)

read_clean-end : (r : Reading) → read_clean description_end r ≡ end_description r
unfolding read_clean is_empty text_eq
read_clean-end r = refl

read_clean-begin : (r : Reading) → read_clean description_begin r ≡ begin_description r
unfolding read_clean is_empty text_eq
read_clean-begin r = refl

read_inside :
    (raw : List Text) (end text : Text) (fields : ScriptMetadataFields)
    → All IsDescriptionLine raw
    → clean_metadata_line end ≡ description_end
    → read_lines (raw ++ end ∷ []) (inside text fields)
      ≡ closed (text ++ behind_breaks (map clean_metadata_line raw)) fields
unfolding read_lines end_description push_description_line behind_breaks
read_inside [] end text fields h k =
    rw k (rw (read_clean-end (inside text fields), read_lines) (rw (append-nil text) refl))
read_inside (line ∷ raw) end text fields ((no_begin, no_end), h) k =
    let clean = clean_metadata_line line in
    rw (read_clean_inside clean (inside text fields) refl no_begin no_end, read_lines)
      (read_inside raw end (text ++ (0xa ∷ []) ++ clean) fields h k
        ∙ ap (λ l. closed l fields)
            (append_assoc (text ++ (0xa ∷ [])) clean _ ∙ append_assoc text (0xa ∷ []) _))

-- The text that the lines of a description block give.
abbrev pub block_text : List Text → Text
block_text raw = join_lines (map clean_metadata_line raw)

read_begun :
    (raw : List Text) (end : Text) (r : Reading)
    → All IsDescriptionLine raw
    → clean_metadata_line end ≡ description_end
    → read_lines (raw ++ end ∷ []) (begin_description r) ≡ closed (block_text raw) r.fields
unfolding read_lines end_description push_description_line begin_description join_lines
read_begun [] end r h k = rw k (rw (read_clean-end (begin_description r), read_lines) refl)
read_begun (line ∷ raw) end r ((no_begin, no_end), h) k =
    let clean = clean_metadata_line line in
    rw (read_clean_inside clean (begin_description r) refl no_begin no_end, read_lines)
      (read_inside raw end clean r.fields h k
        ∙ ap (λ l. closed l r.fields)
            (sym (join_lines-behind_breaks clean (map clean_metadata_line raw))))

-- A description block, in whatever state it begins, sets the description to its lines, each without
-- its comment prefix and white space around it and joined by line breaks, changes no other field and
-- ends outside of any description, if none of its lines is another begin or end marker.
pub read_lines-block :
    (begin : Text) (raw : List Text) (end : Text) (r : Reading)
    → clean_metadata_line begin ≡ description_begin
    → All IsDescriptionLine raw
    → clean_metadata_line end ≡ description_end
    → read_lines (begin ∷ (raw ++ end ∷ [])) r ≡ record {
      fields = record r.fields { description = some (block_text raw) };
      description = [];
      description_needs_separator = false;
      in_description = false;
    }
unfolding read_lines
read_lines-block begin raw end r h good k =
    rw (h, read_lines) (rw (read_clean-begin r) (read_begun raw end r good k))
