-- ===== src/Prelude/Text/Trimmed.antt =====
-- `strings.TrimSpace`: a text that was trimmed stays as it is.
use Prim.Native.Char.{Char}
use Prim.Native.String.{String}
use mathlib.Core.Path.{◌≡◌, refl, ap, ◌∙◌}
use mathlib.Core.Bool.{false}
use mathlib.Core.Logic.{inl, inr}
use r0rpc.Prelude.Tests.{Bool-cases, by_if}
use r0rpc.Prelude.Text.{is_space, trim_left, trim_right, trim_space, close_right}

-- A text that does not begin with a space.
abbrev IsOpen : String → Type 0
IsOpen String.[] = Unit
IsOpen (String.◌∷◌ c s) = is_space c ≡ false

trim_left-IsOpen : (s : String) → IsOpen (trim_left s)
unfolding trim_left
trim_left-IsOpen String.[] = tt
trim_left-IsOpen (String.◌∷◌ c s) = elim (Bool-cases (is_space c)) [
  | inl e ↦ rw e (trim_left-IsOpen s)
  | inr e ↦ rw (e, IsOpen) e
]

trim_left-open : (s : String) → IsOpen s → trim_left s ≡ s
unfolding trim_left
trim_left-open String.[] h = refl
trim_left-open (String.◌∷◌ c s) h = rw h refl

close_right-IsOpen : (c : Char) (x : String) → is_space c ≡ false → IsOpen (close_right c x)
close_right-IsOpen c String.[] h = rw (h, IsOpen) h
close_right-IsOpen c (String.◌∷◌ d s) h = h

trim_right-IsOpen : (s : String) → IsOpen s → IsOpen (trim_right s)
unfolding trim_right
trim_right-IsOpen String.[] h = tt
trim_right-IsOpen (String.◌∷◌ c s) h = close_right-IsOpen c (trim_right s) h

trim_right-single :
    (c : Char) → is_space c ≡ false → trim_right (String.◌∷◌ c String.[]) ≡ String.◌∷◌ c String.[]
unfolding trim_right
trim_right-single c e = rw e refl

trim_right-close_right :
    (c : Char) (x : String) → trim_right x ≡ x → trim_right (close_right c x) ≡ close_right c x
unfolding trim_right
trim_right-close_right c String.[] h =
    by_if (λ x. trim_right x ≡ x) (is_space c) (λ _. refl) (trim_right-single c)
trim_right-close_right c (String.◌∷◌ d s) h = ap (close_right c) h

trim_right-trim_right : (s : String) → trim_right (trim_right s) ≡ trim_right s
unfolding trim_right
trim_right-trim_right String.[] = refl
trim_right-trim_right (String.◌∷◌ c s) =
    trim_right-close_right c (trim_right s) (trim_right-trim_right s)

pub trim_space-trim_space : (s : String) → trim_space (trim_space s) ≡ trim_space s
unfolding trim_space
trim_space-trim_space s =
    ap trim_right (
      trim_left-open (trim_right (trim_left s))
        (trim_right-IsOpen (trim_left s) (trim_left-IsOpen s)))
    ∙ trim_right-trim_right (trim_left s)
