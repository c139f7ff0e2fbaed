-- ===== src/Formats/Kinds.antt =====
-- The first bytes of a file do not decide whether its format is that of binary scripts.
use scriptmetakit.Chars.{
  Text, codes, text_eq, text_eq_sound, eq_ignore_ascii_case, to_ascii_lowercase, ascii_lower,
  strip_prefix,
}
use scriptmetakit.Formats.{
  format_specs, find_spec, extension_matches_any, asks_shebang, normalized_extension,
  has_jxa_osascript_shebang, shebang_of, shebang_requests_jxa, format_for_extension,
  format_for_path, is_jsxbin, needs_jsxbin_probe, needs_shebang_probe,
  script_header_probe_byte_limit, read_script_header_probe, jsxbin_signature, has_signature,
  is_jsxbin_obfuscated_script,
}
use scriptmetakit.Paths.{FilePath}
use scriptmetakit.Prelude.{
  ℕ, zero, suc, ◌≤◌, true, false, List, [], ◌∷◌, Option, none, some, ◌==◌, is_some, length, take,
  ◌≡◌, refl, sym, ap, ◌∙◌, Bool-cases, Option-cases, inl, inr, arith,
}

-- An extension that equals a text equals others exactly as that text does.
same_extension :
    (e known other : Text)
    → eq_ignore_ascii_case e known ≡ true
    → eq_ignore_ascii_case e other ≡ eq_ignore_ascii_case known other
unfolding eq_ignore_ascii_case
same_extension e known other h =
    ap (λ l. text_eq l (to_ascii_lowercase other))
      (text_eq_sound (to_ascii_lowercase e) (to_ascii_lowercase known) h)

find_js :
    (e : Text)
    → eq_ignore_ascii_case e (codes "js") ≡ true
    → is_jsxbin (find_spec e format_specs) ≡ false
unfolding find_spec extension_matches_any is_jsxbin
find_js e h = rw (h, find_spec) refl

applescript_others :
    (eq_ignore_ascii_case (codes "applescript") (codes "js") ≡ false)
    × (eq_ignore_ascii_case (codes "applescript") (codes "jsx") ≡ false)
    × (eq_ignore_ascii_case (codes "applescript") (codes "jsxinc") ≡ false)
    × (eq_ignore_ascii_case (codes "applescript") (codes "jsxbin") ≡ false)
unfolding eq_ignore_ascii_case to_ascii_lowercase ascii_lower text_eq
applescript_others = (refl, refl, refl, refl)

find_applescript :
    (e : Text)
    → eq_ignore_ascii_case e (codes "applescript") ≡ true
    → is_jsxbin (find_spec e format_specs) ≡ false
unfolding find_spec extension_matches_any is_jsxbin
find_applescript e h =
    let (js, jsx, jsxinc, jsxbin_file) = applescript_others in
    let other = λ (l : Text). same_extension e (codes "applescript") l h in
    rw (other (codes "js") ∙ js, find_spec)
      (rw (other (codes "jsx") ∙ jsx) (
        rw (other (codes "jsxinc") ∙ jsxinc)
          (rw (other (codes "jsxbin") ∙ jsxbin_file) (rw h refl))))

asks_shebang-find_spec :
    (e : Text) → asks_shebang e ≡ true → is_jsxbin (find_spec e format_specs) ≡ false
unfolding asks_shebang
asks_shebang-find_spec e h = elim (Bool-cases (eq_ignore_ascii_case e (codes "js"))) [
  | inl k ↦ find_js e k
  | inr k ↦ find_applescript e (ground (arith, h, k))
]

strip_prefix-take :
    (s mark : Text) (n : ℕ)
    → length mark ≤ n
    → is_some (strip_prefix (take n s) mark) ≡ is_some (strip_prefix s mark)
unfolding strip_prefix
strip_prefix-take s [] n h = refl
strip_prefix-take s (m ∷ mark) zero h = absurd (omega (arith, h))
strip_prefix-take [] (m ∷ mark) (suc n) h = refl
strip_prefix-take (c ∷ s) (m ∷ mark) (suc n) h = elim (Bool-cases (c == m)) [
  | inl e ↦ rw (e, strip_prefix) (strip_prefix-take s mark n (omega (arith, h)))
  | inr e ↦ rw (e, strip_prefix) refl
]

module _ (from_utf8_lossy : List ℕ → Text) where
  no_bytes : has_jxa_osascript_shebang from_utf8_lossy none ≡ false
  unfolding has_jxa_osascript_shebang shebang_of shebang_requests_jxa
  no_bytes = refl

  format_for_extension-is_jsxbin :
      (e : Text) (prefix_bytes : Option (List ℕ))
      → is_jsxbin (format_for_extension from_utf8_lossy e prefix_bytes)
        ≡ is_jsxbin (format_for_extension from_utf8_lossy e none)
  unfolding format_for_extension is_jsxbin
  format_for_extension-is_jsxbin e prefix_bytes =
      elim (Bool-cases (eq_ignore_ascii_case e (codes "jxa"))) [
        | inl h ↦ rw (h, format_for_extension) refl
        | inr h ↦ elim (Bool-cases (asks_shebang e)) [
          | inr k ↦ rw (h, k, format_for_extension) refl
          | inl k ↦
              rw (h, k, format_for_extension)
                (rw no_bytes
                  (elim (Bool-cases (has_jxa_osascript_shebang from_utf8_lossy prefix_bytes)) [
                    | inl l ↦ rw l (sym (asks_shebang-find_spec e k))
                    | inr l ↦ rw l refl
                  ]))
        ]
      ]

  -- The bytes do not matter for the format of binary scripts.
  pub format_for_path-is_jsxbin :
      (path : FilePath) (prefix_bytes : Option (List ℕ))
      → is_jsxbin (format_for_path from_utf8_lossy path prefix_bytes)
        ≡ is_jsxbin (format_for_path from_utf8_lossy path none)
  unfolding format_for_path
  format_for_path-is_jsxbin path prefix_bytes = elim (Option-cases (normalized_extension path)) [
    | inl e ↦ rw (e, format_for_path) refl
    | inr (extension, e) ↦
        rw (e, format_for_path) (format_for_extension-is_jsxbin extension prefix_bytes)
  ]

  pub obfuscated_none :
      (path : FilePath) (prefix_bytes : Option (List ℕ))
      → is_jsxbin_obfuscated_script from_utf8_lossy path prefix_bytes ≡ false
      → is_jsxbin_obfuscated_script from_utf8_lossy path none ≡ false
  unfolding is_jsxbin_obfuscated_script has_signature
  obfuscated_none path prefix_bytes h =
      let same = format_for_path-is_jsxbin path prefix_bytes in ground (arith, h, same)

  enough :
      (path : FilePath) → needs_jsxbin_probe path ≡ true → 7 ≤ script_header_probe_byte_limit path
  unfolding script_header_probe_byte_limit
  enough path h = elim (Bool-cases (needs_shebang_probe path)) [
    | inl e ↦ rw (e, script_header_probe_byte_limit) (omega arith)
    | inr e ↦ rw (e, h, script_header_probe_byte_limit) (omega arith)
  ]

  limit_zero :
      (path : FilePath)
      → (script_header_probe_byte_limit path == 0) ≡ true
      → needs_jsxbin_probe path ≡ false
  limit_zero path h = elim (Bool-cases (needs_jsxbin_probe path)) [
    | inr e ↦ e
    | inl e ↦ let size = enough path e in absurd (ground (arith, h, size))
  ]

  -- Whether a script is binary is found out from the bytes that the header probe reads as from the
  -- whole file.
  pub is_jsxbin_obfuscated_script-read_script_header_probe :
      (path : FilePath) (bytes : List ℕ)
      → is_jsxbin_obfuscated_script from_utf8_lossy path
          (read_script_header_probe path (some bytes))
        ≡ is_jsxbin_obfuscated_script from_utf8_lossy path (some bytes)
  unfolding is_jsxbin_obfuscated_script read_script_header_probe has_signature
  is_jsxbin_obfuscated_script-read_script_header_probe path bytes =
      elim (Bool-cases (script_header_probe_byte_limit path == 0)) [
        | inl e ↦
            let needless = limit_zero path e in
            let same = format_for_path-is_jsxbin path (some bytes) in
            rw (e, read_script_header_probe) (rw needless (rw same refl))
        | inr e ↦
            let cut = take (script_header_probe_byte_limit path) bytes in
            let same =
              format_for_path-is_jsxbin path (some bytes)
              ∙ sym (format_for_path-is_jsxbin path (some cut)) in
            rw (e, read_script_header_probe)
              (elim (Bool-cases (needs_jsxbin_probe path)) [
                | inr k ↦ rw k (rw same refl)
                | inl k ↦
                    rw
                      (strip_prefix-take bytes jsxbin_signature
                        (script_header_probe_byte_limit path) (enough path k))
                      (rw same refl)
              ])
      ]
