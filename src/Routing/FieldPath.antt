-- ===== src/Routing/FieldPath.antt =====
-- strategies/routing/field-path.ts: a dotted path into a payload. `none` is `undefined`.
use Prim.Native.Char.{code}
use clawndom.Common.Tests.{◌⧺◌}
use clawndom.Common.{
  ℕ, zero, suc, ◌+◌, ◌-◌, ◌*◌, String, ◌&&◌, Option, none, some, List, [], ◌∷◌, leb, eqb,
  if◌then◌else◌,
}
use clawndom.Common.Dict
use clawndom.Routing.Json.{Json, arr, obj, items, fields}

-- `text.split(separator)` at a separator of one character.
split_from : ℕ → String → String → List String
split_from separator piece String.[] = piece ∷ []
split_from separator piece (String.◌∷◌ c s) =
    let longer = split_from separator (piece ⧺ String.◌∷◌ c String.[]) s in
    let closed = split_from separator "" s in
    if eqb (code c) separator then piece ∷ closed else longer

unfoldable pub split : ℕ → String → List String
unfolding split_from
split separator text = split_from separator "" text

-- The number that digits spell, read from the left.
digits_from : ℕ → String → Option ℕ
digits_from n String.[] = some n
digits_from n (String.◌∷◌ c s) =
    let rest = digits_from (n * 10 + (code c - 48)) s in
    if leb 48 (code c) && leb (code c) 57 then rest else none

-- An array index as a property key: "0", or digits that do not begin with a zero.
unfoldable pub array_index : String → Option ℕ
unfolding digits_from
array_index String.[] = none
array_index (String.◌∷◌ c String.[]) = digits_from 0 (String.◌∷◌ c String.[])
array_index (String.◌∷◌ c s) = if eqb (code c) 48 then none else digits_from 0 (String.◌∷◌ c s)

abbrev pub get_elem? : List Json → ℕ → Option Json
get_elem? [] i = none
get_elem? (v ∷ vs) zero = some v
get_elem? (v ∷ vs) (suc i) = get_elem? vs i

abbrev or_else : Option Json → Option Json → Option Json
or_else none other = other
or_else (some v) other = some v

-- What the runtime answers for a key that is no entry of an object and no index of an array: an
-- array's `length` and the members of the prototypes.
module _ (inherited : Json → String → Option Json) where
  at_index : List Json → Option ℕ → Option Json
  at_index vs none = none
  at_index vs (some i) = get_elem? vs i

  unfoldable pub read_indexed : Json → String → Option Json
  unfolding at_index
  read_indexed (obj fs) key = or_else (Dict.get key (fields fs)) (inherited (obj fs) key)
  read_indexed (arr vs) key =
      or_else (at_index (items vs) (array_index key)) (inherited (arr vs) key)
  read_indexed subject key = none

  -- The loop over the segments.
  unfoldable pub walk : Json → List String → Option Json
  walk current [] = some current
  walk current (segment ∷ segments) = elim (read_indexed current segment) [
    | none ↦ none
    | some next ↦ walk next segments
  ]

  unfoldable pub resolve_field_path : Json → String → Option Json
  unfolding walk read_indexed
  resolve_field_path payload path = walk payload (split 46 path)
