-- ===== src/Tts/Markdown/Tests.antt =====
-- Texts before and after.
use bibi_core.Base.{◌≡◌, refl, arith, Text, codes, mem_char}
use bibi_core.Tts.Markdown.{
  sub_from, sub, blanks, some_blanks, drop_prefix, until, behind_target, lazy_body, fenced_body,
  fenced, image, link, behind_hashes, header, marker, list_marker, bold_italic, bold, italic,
  strikethrough, inline_code, is_symbol, leftover_symbol, repeated_spaces, sub_all, strip_markdown,
}
use bibi_core.Tts.Markdown.Within.{Within}
use bibi_core.Tts.Markdown.Sound.{strip_markdown-Within}
use bibi_core.Tts.Markdown.Clean.{HasNoSymbol, HasSingleBlanks, strip_markdown_clean}
use bibi_core.Tts.Markdown.Plain.{is_markup, is_loose, IsPlain, strip_markdown_plain}
use bibi_core.Tts.Markdown.Link.{link_to, strip_markdown_link}

abbrev marked_up : Text
marked_up = codes "## Hi  **all**\n - *one* [two](x_y)\n![pic](a) ~~no~~ `c` 2 * 3 __x *"

stripped : strip_markdown marked_up ≡ codes "Hi all\none two\npic no c 2 3 x "
unfolding strip_markdown sub_all sub sub_from blanks some_blanks drop_prefix until behind_target
    lazy_body fenced_body fenced image link behind_hashes header marker list_marker bold_italic bold
    italic strikethrough inline_code is_symbol leftover_symbol repeated_spaces mem_char
stripped = refl

strip_markdown-Within_example : Within (strip_markdown marked_up) marked_up
strip_markdown-Within_example = strip_markdown-Within marked_up

strip_markdown_clean_example :
    HasNoSymbol (strip_markdown marked_up) × HasSingleBlanks (strip_markdown marked_up)
strip_markdown_clean_example = strip_markdown_clean marked_up

IsPlain-text : IsPlain (codes "It is well-known, (so) 2+2 = 4.")
unfolding is_markup is_loose mem_char
IsPlain-text = ground arith

strip_markdown_plain_run :
    strip_markdown (codes "It is well-known, (so) 2+2 = 4.")
    ≡ codes "It is well-known, (so) 2+2 = 4."
strip_markdown_plain_run =
    strip_markdown_plain (codes "It is well-known, (so) 2+2 = 4.") IsPlain-text

link_text : strip_markdown (link_to (codes "my page") (codes "http://a.b/c?d=e")) ≡ codes "my page"
unfolding is_markup is_loose mem_char
link_text =
    strip_markdown_link (codes "my page") (codes "http://a.b/c?d=e") (λ e. cc) (ground arith)
      (ground arith) (omega arith) (omega arith)
