-- ===== src/Tests/Wire.antt =====
-- A concrete `Json` with its laws: a value is a list of numbers with a tag in front, and is its own
-- text; an array packs its items behind their lengths.
use outlay.Base.{
  ℕ, zero, suc, ◌≤◌, ◌<◌, Bool, true, false, Option, some, none, List, [], ◌∷◌, ◌++◌, ◌≡◌, refl, ap,
  arith, if◌then◌else◌, length, length-append, eqb,
}
use outlay.Base.Opt.{◌>>=◌}
use outlay.Base.Text.{Text, ◌==◌, ==_iff}
use outlay.Json.{Json}
use outlay.Json.Laws.{HasAccessors, HasMaps, HasTexts}

abbrev take : ℕ → Text → Text
take zero s = []
take (suc n) [] = []
take (suc n) (c ∷ s) = c ∷ take n s

abbrev drop : ℕ → Text → Text
drop zero s = s
drop (suc n) [] = []
drop (suc n) (c ∷ s) = drop n s

abbrev pub pack : List Text → Text
pack [] = []
pack (v ∷ vs) = length v ∷ (v ++ pack vs)

abbrev pub unpack : ℕ → Text → Option (List Text)
unpack zero s = none
unpack (suc fuel) [] = some []
unpack (suc fuel) (n ∷ s) = do vs ← unpack fuel (drop n s); some (take n s ∷ vs)

take-append : (s t : Text) → take (length s) (s ++ t) ≡ s
take-append [] t = refl
take-append (c ∷ s) t = ap (◌∷◌ c) (take-append s t)

drop-append : (s t : Text) → drop (length s) (s ++ t) ≡ t
drop-append [] t = refl
drop-append (c ∷ s) t = drop-append s t

-- The fuel is the number of items and one more.
unpack-pack : (vs : List Text) (fuel : ℕ) → length vs < fuel → unpack fuel (pack vs) ≡ some vs
unpack-pack [] (suc fuel) h = refl
unpack-pack (v ∷ vs) (suc fuel) h =
    rw (drop-append v (pack vs), take-append v (pack vs), unpack-pack vs fuel (omega arith))
unpack-pack vs zero h = elim h [ ]

length-pack : (vs : List Text) → length vs ≤ length (pack vs)
length-pack [] = omega arith
length-pack (v ∷ vs) = omega (arith, length-pack vs, length-append v (pack vs))

abbrev tagged : ℕ → Text → Option Text
tagged tag [] = none
tagged tag (t ∷ s) = if eqb t tag then some s else none

abbrev pub items : Text → Option (List Text)
items s = unpack (suc (length s)) s

items-pack : (vs : List Text) → items (pack vs) ≡ some vs
items-pack vs = unpack-pack vs (suc (length (pack vs))) (omega (arith, length-pack vs))

abbrev Pairs : Type 0
Pairs = List (Text × Text)

abbrev flat : Pairs → List Text
flat [] = []
flat ((k, v) ∷ m) = k ∷ v ∷ flat m

abbrev pairs : List Text → Option Pairs
pairs [] = some []
pairs (k ∷ []) = none
pairs (k ∷ v ∷ vs) = do m ← pairs vs; some ((k, v) ∷ m)

pairs-flat : (m : Pairs) → pairs (flat m) ≡ some m
pairs-flat [] = refl
pairs-flat ((k, v) ∷ m) = rw (pairs-flat m)

abbrev find : Text → Pairs → Option Text
find j [] = none
find j ((k, v) ∷ m) = if k == j then some v else find j m

abbrev remove : Text → Pairs → Pairs
remove j [] = []
remove j ((k, v) ∷ m) = if k == j then remove j m else (k, v) ∷ remove j m

find-remove_lem :
    (k j : Text) (m : Pairs) → find j (remove k m) ≡ (if k == j then none else find j m)
find-remove_lem k j [] = ground arith
find-remove_lem k j ((i, v) ∷ m) =
    ground (arith, ==_iff i k, ==_iff i j, ==_iff k j, find-remove_lem k j m)

abbrev is_nil : Pairs → Bool
is_nil [] = true
is_nil (p ∷ m) = false

abbrev as_bit : Text → Option Bool
as_bit [] = none
as_bit (b ∷ s) = some (eqb b 1)

abbrev pub wire : Json
wire = record {
  Value = Text;
  Map = Pairs;
  null = 0 ∷ [];
  boolean = λ b. 1 ∷ (if b then 1 else 0) ∷ [];
  string = λ s. 3 ∷ s;
  number = λ n. 2 ∷ n ∷ [];
  array = λ vs. 4 ∷ pack vs;
  object = λ m. 5 ∷ pack (flat m);
  as_str = tagged 3;
  as_bool = λ v. tagged 1 v >>= as_bit;
  as_object = λ v. tagged 5 v >>= items >>= pairs;
  as_array = λ v. tagged 4 v >>= items;
  empty = [];
  insert = λ k v m. (k, v) ∷ m;
  find = find;
  remove = remove;
  is_empty = is_nil;
  parse_array = λ v. tagged 4 v >>= items;
  to_string = λ v. some v;
  to_string_pretty = λ v. some v;
  display = λ v. v;
}

as_bool_lem : (b : Bool) → wire.as_bool (wire.boolean b) ≡ some b
as_bool_lem true = refl
as_bool_lem false = refl

as_object_lem : (m : Pairs) → wire.as_object (wire.object m) ≡ some m
as_object_lem m = rw (items-pack (flat m)) (pairs-flat m)

pub wire_accessors : HasAccessors wire
wire_accessors = record {
  as_str-string = λ s. refl;
  as_bool-boolean = as_bool_lem;
  as_object-object = as_object_lem;
  as_array-array = items-pack;
}

pub wire_maps : HasMaps wire
wire_maps = record {
  find-empty = λ j. refl;
  find-insert = λ k j v m. refl;
  find-remove = find-remove_lem;
  is_empty-empty = refl;
  is_empty-insert = λ k v m. refl;
}

pub wire_texts : HasTexts wire
wire_texts = record { to_string-display = λ v. refl; parse_array-display = items-pack }
