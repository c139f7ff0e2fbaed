-- ===== src/Parser/Html/Tests.antt =====
-- A paragraph with a link.
use scriptmetakit.Chars.{Text, codes}
use scriptmetakit.Parser.Html.Tags.{NoTag, strip_html_tags-NoTag}
use scriptmetakit.Parser.Html.{strip_html_tags}
use scriptmetakit.Prelude.{◌≡◌, ◌↔◌}

abbrev paragraph : Text
paragraph = codes "<p>1 < <a href=x>2</a>"

strip_html_tags-NoTag_example :
    NoTag (strip_html_tags paragraph) × ((strip_html_tags paragraph ≡ paragraph) ↔ NoTag paragraph)
strip_html_tags-NoTag_example = strip_html_tags-NoTag paragraph
