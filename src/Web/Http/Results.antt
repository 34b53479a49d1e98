-- ===== src/Web/Http/Results.antt =====
-- What can be read off an answer that is not one of the refusals.
use callfxo.Prelude.{Option, none, some, ◌≡◌, refl, arith, ap, ◌∙◌}
use callfxo.Prelude.Integers.{ℤ}
use mathlib.Core.Option.{some-injective}
use callfxo.Text.{Text}
use callfxo.Store.Schema.{
  Store, Error, not_found, constraint, engine, unsupported_field, Result, ok, err,
}
use callfxo.Web.Http.{Response, answer_result, with_parsed_id, with_id, parse_id_param, missing_or}

pub missing_or-not_ok : (why : Text) (e : Error) → ¬ ((missing_or why e).status ≡ 200)
unfolding missing_or
missing_or-not_ok why not_found h = absurd (omega arith)
missing_or-not_ok why constraint h = absurd (omega arith)
missing_or-not_ok why engine h = absurd (omega arith)
missing_or-not_ok why unsupported_field h = absurd (omega arith)

with_parsed_id-eq :
    (o : Option ℤ) (id : ℤ) (handler : ℤ → Store → Response × Store) (s : Store)
    → o ≡ some id
    → with_parsed_id o handler s ≡ handler id s
unfolding with_parsed_id
with_parsed_id-eq none id handler s h = cc
with_parsed_id-eq (some i) id handler s h = ap (λ (x : ℤ). handler x s) (some-injective i id h)

pub with_id-eq :
    (raw : Text) (id : ℤ) (handler : ℤ → Store → Response × Store) (s : Store)
    → parse_id_param raw ≡ some id
    → with_id raw handler s ≡ handler id s
unfolding with_id
with_id-eq raw id handler s h = with_parsed_id-eq (parse_id_param raw) id handler s h

module _ {a : Response} {s' : Store} where
  pub answer_result-good :
      {A : Type 0} (r : Result A × Store) (bad : Error → Response)
      (good : A → Store → Response × Store)
      → ((e : Error) → ¬ ((bad e).status ≡ 200))
      → answer_result r bad good ≡ (a, s')
      → a.status ≡ 200
      → (v : A) × (s : Store) × (r ≡ (ok v, s)) × (good v s ≡ (a, s'))
  unfolding answer_result
  answer_result-good (ok v, s) bad good refuses h k = (v, s, refl, h)
  answer_result-good (err e, s) bad good refuses h k =
      absurd (refuses e (ap (λ (p : Response × Store). (p.0).status) h ∙ k))
