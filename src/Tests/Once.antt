-- ===== src/Tests/Once.antt =====
-- A cell of a cache, as its value and whether a caller is initialising it.
use outlay.Base.{Bool, true, false, Option, some, none, ◌≡◌, refl}
use outlay.Base.Res.{Result, ok, err}
use outlay.Base.Text.{Text}
use outlay.Shim.Cache.{OnceCell}

module _ {T : Type 0} where
  abbrev pub try_init : Result Text T → Option T × Bool → Result Text T × Bool × (Option T × Bool)
  try_init r (some t, b) = (ok t, false, (some t, b))
  try_init (ok t) (none, b) = (ok t, true, (some t, b))
  try_init (err e) (none, b) = (err e, true, (none, b))

  abbrev pub take : Option T × Bool → Option (Option T × Bool)
  take (none, false) = some (none, true)
  take (none, true) = none
  take (some t, b) = none

  pub take-eq-some :
      (c d : Option T × Bool)
      → take c ≡ some d
      → (c.0 ≡ none) × (c.1 ≡ false) × (d.0 ≡ none) × (d.1 ≡ true)
  take-eq-some (none, false) d h = (refl, refl, cc (h), cc (h))
  take-eq-some (none, true) d h = cc
  take-eq-some (some t, b) d h = cc

  pub try_init_full :
      (r : Result Text T) (c : Option T × Bool) (t : T)
      → c.0 ≡ some t
      → try_init r c ≡ (ok t, false, c)
  try_init_full r (some u, b) t h = cc (h)
  try_init_full r (none, b) t h = cc

  pub try_init_ok :
      (t : T) (c : Option T × Bool)
      → c.0 ≡ none
      → (d : Option T × Bool) × (try_init (ok t) c ≡ (ok t, true, d)) × (d.0 ≡ some t)
  try_init_ok t (some u, b) h = cc
  try_init_ok t (none, b) h = ((some t, b), refl, refl)

  pub try_init_err :
      (e : Text) (c : Option T × Bool)
      → c.0 ≡ none
      → (d : Option T × Bool) × (try_init (err e) c ≡ (err e, true, d)) × (d.0 ≡ none)
  try_init_err e (some u, b) h = cc
  try_init_err e (none, b) h = ((none, b), refl, refl)

  abbrev pub once : OnceCell T
  once = record {
    Cell = Option T × Bool;
    new = (none, false);
    value = λ c. c.0;
    is_taken = λ c. c.1;
    get_or_try_init = try_init;
    acquire = take;
    fill = λ t c. (some t, false);
    release = λ c. (c.0, false);
    value-new = refl;
    is_taken-new = refl;
    init_full = try_init_full;
    init_ok = try_init_ok;
    init_err = try_init_err;
    acquire-eq-some = take-eq-some;
    value-fill = λ t c h. refl;
    is_taken-fill = λ t c. refl;
    value-release = λ c. refl;
    is_taken-release = λ c. refl;
  }
