-- ===== src/Tts/Markdown/Link.antt =====
-- Texts with one link.
use bibi_core.Base.{
  ℕ, zero, ◌-◌, ◌≡◌, ◌≢◌, refl, ap, ◌∙◌, Bool, true, some, [], ◌∷◌, ◌++◌, ◌==◌, arith, Text, length,
  All-append, append-nil, mem_char,
}
use bibi_core.Base.Texts.Laws.{Avoids}
use bibi_core.Tts.Markdown.{
  Pattern, sub_from, sub, drop_prefix, until, nonempty, behind_target, image, link, header,
  list_marker, bold_italic, bold, italic, strikethrough, inline_code, leftover_symbol,
  repeated_spaces, sub_all, strip_markdown,
}
use bibi_core.Tts.Markdown.Scans.{sub_from-none, sub_from-some}
use bibi_core.Tts.Markdown.Plain.{
  is_markup, IsPlain, sub_idle, header-IsIdle, list_marker-IsIdle, bold_italic-IsIdle, bold-IsIdle,
  italic-IsIdle, strikethrough-IsIdle, inline_code-IsIdle, leftover_symbol-IsIdle,
  repeated_spaces-IsIdle,
}

-- `[w](url)`
abbrev pub link_to : Text → Text → Text
link_to w url = b'[' ∷ w ++ (b']' ∷ b'(' ∷ (url ++ b')' ∷ []))

until_found : (x : ℕ) (w t : Text) → Avoids x w → until x (w ++ x ∷ t) ≡ some (w, t)
unfolding until
until_found x [] t h = ground arith
until_found x (c ∷ w) t h = ground (arith, until_found x w t h.1, h.0)

taken_all : (p : Pattern) (start : Bool) (s : Text) → sub_from p start (length s) s ≡ []
unfolding sub_from
taken_all p start [] = refl
taken_all p start (c ∷ s) = taken_all p (c == b'\n') s

target_found :
    (body url : Text)
    → Avoids b')' url
    → behind_target (some (body, b'(' ∷ (url ++ b')' ∷ []))) ≡ some (body, [])
unfolding behind_target
target_found body url h = rw (until_found b')' url [] h, behind_target)

link_found :
    (w url : Text)
    → w ≢ []
    → Avoids b']' w
    → Avoids b')' url
    → link true (link_to w url) ≡ some (w, [])
unfolding link drop_prefix
link_found [] url ne h k = absurd (ne refl)
link_found (c ∷ w) url ne h k =
    ap (λ o. behind_target (nonempty o)) (until_found b']' (c ∷ w) (b'(' ∷ (url ++ b')' ∷ [])) h)
    ∙ target_found (c ∷ w) url k

sub-link : (w url : Text) → w ≢ [] → Avoids b']' w → Avoids b')' url → sub link (link_to w url) ≡ w
unfolding sub
sub-link w url ne h k =
    let t : Text = w ++ (b']' ∷ b'(' ∷ (url ++ b')' ∷ [])) in
    let whole : length t - 0 ≡ length t = omega arith in
    sub_from-some link true b'[' t w [] (link_found w url ne h k)
    ∙ (rw (whole, taken_all) (append-nil w))

plain-Avoids : (s : Text) → IsPlain s → Avoids b'[' s
unfolding is_markup mem_char
plain-Avoids [] h = tt
plain-Avoids (c ∷ s) h = (λ e. absurd (ground (arith, h.0)), plain-Avoids s h.2)

-- An image wants a bracket.
image_without : (start : Bool) (s : Text) → Avoids b'[' s → sub_from image start zero s ≡ s
unfolding sub_from image drop_prefix
image_without start [] h = refl
image_without start (c ∷ []) h = sub_from-none image start c [] (ground arith)
image_without start (c ∷ d ∷ s) h =
    sub_from-none image start c (d ∷ s) (ground (arith, h.1.0))
    ∙ ap (λ t. c ∷ t) (image_without (c == b'\n') (d ∷ s) h.1)

sub-image : (w url : Text) → IsPlain w → IsPlain url → sub image (link_to w url) ≡ link_to w url
unfolding sub image drop_prefix
sub-image w url h k =
    let inside =
      All-append (λ c. c ≢ b'[') w (b']' ∷ b'(' ∷ (url ++ b')' ∷ [])) (plain-Avoids w h)
        (
          λ e. absurd (omega (arith, e)),
          (
            λ e. absurd (omega (arith, e)),
            All-append (λ c. c ≢ b'[') url (b')' ∷ []) (plain-Avoids url k)
                (λ e. absurd (omega (arith, e)), tt),
          ),
        ) in
    let t : Text = w ++ (b']' ∷ b'(' ∷ (url ++ b')' ∷ [])) in
    sub_from-none image true b'[' t refl
    ∙ ap (λ u. b'[' ∷ u) (image_without (b'[' == b'\n') t inside)

pub strip_markdown_link :
    (w url : Text)
    → w ≢ []
    → IsPlain w
    → IsPlain url
    → Avoids b']' w
    → Avoids b')' url
    → strip_markdown (link_to w url) ≡ w
unfolding strip_markdown sub_all
strip_markdown_link w url ne h k a b =
    rw
      (
        sub-image w url h k,
        sub-link w url ne a b,
        sub_idle header w header-IsIdle h,
        sub_idle list_marker w list_marker-IsIdle h,
        sub_idle bold_italic w bold_italic-IsIdle h,
        sub_idle bold w bold-IsIdle h,
        sub_idle italic w italic-IsIdle h,
        sub_idle strikethrough w strikethrough-IsIdle h,
        sub_idle inline_code w inline_code-IsIdle h,
        sub_idle leftover_symbol w leftover_symbol-IsIdle h,
      )
      (sub_idle repeated_spaces w repeated_spaces-IsIdle h)
