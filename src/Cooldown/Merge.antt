-- ===== src/Cooldown/Merge.antt =====
-- What mergeModelCooldowns keeps (internal/store/account_cooldown.go).
use orchids_2api.Prelude.{
  max, String, ◌≡◌, refl, false, ◌&&◌, Option, none, some, List, [], ◌∷◌, arith, ◌==◌, str_eq,
  if◌then◌else◌,
}
use orchids_2api.Prelude.Text.{is_empty, trim_space}
use orchids_2api.Prelude.Time.{Time}
use orchids_2api.Prelude.Assoc.{lookup, string_eq, nat_eq, lookup-insert}
use text.Mathlib.TextEquality.{eq_iff}
use orchids_2api.Cooldown.{is_live, merge_deadline, merge_source, merge_model_cooldowns}

-- The latest live deadline that a map holds for a model, under any spelling that trims to its name,
-- or 0.
abbrev pub latest : Time → String → List (String × Time) → Time
latest now name [] = 0
latest now name ((model, until) ∷ m) =
    let rest = latest now name m in
    if str_eq (trim_space model) name && is_live now until then max until rest else rest

-- What a lookup answers where the latest live deadline is known.
abbrev pub of_deadline : Time → Option Time
of_deadline t = if t == 0 then none else some t

lookup-merge_deadline :
    (now : Time) (name : String) (merged : List (String × Time)) (model : String) (until t : Time)
    → is_empty name ≡ false
    → lookup name merged ≡ of_deadline t
    → lookup name (merge_deadline now merged model until)
      ≡ of_deadline (if str_eq (trim_space model) name && is_live now until then max until t else t)
unfolding merge_deadline
lookup-merge_deadline now name merged model until t h e =
    ground
      (arith, eq_iff (trim_space model) name, lookup-insert (trim_space model) name until merged)

lookup-merge_source :
    (now : Time) (name : String) (merged source : List (String × Time)) (t : Time)
    → is_empty name ≡ false
    → lookup name merged ≡ of_deadline t
    → lookup name (merge_source now merged source) ≡ of_deadline (max (latest now name source) t)
unfolding merge_source
lookup-merge_source now name merged [] t h e = ground arith
lookup-merge_source now name merged ((model, until) ∷ source) t h e = ground (
  arith,
  lookup-merge_source now name (merge_deadline now merged model until) source _ h
      (lookup-merge_deadline now name merged model until t h e),
)

-- For every model name that is not empty, the merged map holds the latest deadline that either map records for it
-- under a spelling that trims to it and that has not passed, and holds nothing where there is none.
pub merge-latest :
    (now : Time) (name : String) (existing incoming : List (String × Time))
    → is_empty name ≡ false
    → lookup name (merge_model_cooldowns now existing incoming)
      ≡ of_deadline (max (latest now name existing) (latest now name incoming))
unfolding merge_model_cooldowns lookup
merge-latest now name existing incoming h = ground (
  arith,
  lookup-merge_source now name (merge_source now [] existing) incoming _ h
      (lookup-merge_source now name [] existing 0 h refl),
)

-- For every model name that is not empty, the merged map answers the same whichever of the two maps
-- comes first.
merge_comm :
    (now : Time) (name : String) (a b : List (String × Time))
    → is_empty name ≡ false
    → lookup name (merge_model_cooldowns now a b) ≡ lookup name (merge_model_cooldowns now b a)
merge_comm now name a b h = ground (arith, merge-latest now name a b h, merge-latest now name b a h)
