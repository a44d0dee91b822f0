-- ===== src/Common/Pieces.antt =====
-- Texts one after the other in one text, and numbers and options as texts: what the concrete codecs
-- of the tests are made of.
use Prim.Native.Char.{Char, code}
use clawndom.Common.Tests.{eqb, if◌then◌else◌}
use Prim.Native.Nat.{ℕ, zero, suc}
use Prim.Native.String.{String}
use mathlib.Core.Path.{◌≡◌, refl, ap, ◌∙◌}
use mathlib.Core.Bool.{Bool, true, false}
use mathlib.Core.Option.{Option, none, some}
use mathlib.Core.List.{List, [], ◌∷◌}

unfoldable pub write : String → String → String
write String.[] rest = String.◌∷◌ "z" rest
write (String.◌∷◌ c s) rest = String.◌∷◌ "a" (String.◌∷◌ c (write s rest))

unfoldable pub cons_char : Char → List String → List String
cons_char c [] = []
cons_char c (t ∷ ts) = String.◌∷◌ c t ∷ ts

unfoldable pub read : Bool → String → List String
unfolding cons_char
read escaped String.[] = []
read true (String.◌∷◌ c s) = cons_char c (read false s)
read false (String.◌∷◌ c s) =
    let escaped = read true s in
    let plain = read false s in if eqb (code c) 97 then escaped else "" ∷ plain

pub read-write : (s rest : String) → read false (write s rest) ≡ s ∷ read false rest
unfolding read write
read-write String.[] rest = refl
read-write (String.◌∷◌ c s) rest = ap (cons_char c) (read-write s rest)

unfoldable pub unary : ℕ → String
unary zero = ""
unary (suc n) = String.◌∷◌ "i" (unary n)

unfoldable pub count : String → ℕ
count String.[] = 0
count (String.◌∷◌ c s) = suc (count s)

pub count-unary : (n : ℕ) → count (unary n) ≡ n
unfolding count unary
count-unary zero = refl
count-unary (suc n) = ap suc (count-unary n)

unfoldable pub mark : Option String → String
mark none = ""
mark (some s) = String.◌∷◌ "s" s

unfoldable pub unmark : String → Option String
unmark String.[] = none
unmark (String.◌∷◌ c s) = some s

pub unmark-mark : (o : Option String) → unmark (mark o) ≡ o
unfolding unmark mark
unmark-mark none = refl
unmark-mark (some s) = refl

unfoldable pub write_all : List String → String
unfolding write
write_all [] = ""
write_all (piece ∷ pieces) = write piece (write_all pieces)

pub read-write_all : (pieces : List String) → read false (write_all pieces) ≡ pieces
unfolding write_all read
read-write_all [] = refl
read-write_all (piece ∷ pieces) =
    read-write piece (write_all pieces) ∙ ap (◌∷◌ piece) (read-write_all pieces)

unfoldable pub mark_number : Option ℕ → String
unfolding unary
mark_number none = ""
mark_number (some n) = String.◌∷◌ "s" (unary n)

unfoldable pub unmark_number : String → Option ℕ
unfolding count
unmark_number String.[] = none
unmark_number (String.◌∷◌ c s) = some (count s)

pub unmark_number-mark_number : (o : Option ℕ) → unmark_number (mark_number o) ≡ o
unfolding unmark_number mark_number
unmark_number-mark_number none = refl
unmark_number-mark_number (some n) = ap some (count-unary n)
