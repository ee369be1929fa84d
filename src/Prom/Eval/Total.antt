-- ===== src/Prom/Eval/Total.antt =====
-- The evaluators of src/prometheus.rs end: each step goes to proper parts of the expression.
use skaldberg.Base.{
  ℕ, zero, suc, ◌+◌, ◌≤◌, ◌<◌, ◌≡◌, refl, Bool, Bool-cases, inl, inr, Option, none, some,
  Option-cases, List, [], Result, ok, err, arith,
}
use skaldberg.Base.Int.{ℤ}
use skaldberg.Float.{Float}
use skaldberg.Prom.Types.{Expr, QueryKind, LabelModifier, VectorSelector, RangeFnOp, BinOp}
use skaldberg.Prom.Query.{Tokens, detect_query_kind, pure_selector, literal}
use skaldberg.Prom.Binary.{scalar_vector_pair}
use skaldberg.Prom.Select.{aggregate_can_push_down}
use skaldberg.Prom.Engine.{PromError, Database}
use skaldberg.Prom.Eval.{
  Side, is_inner_quantile, apply_sides, on_sides, Run, Backend, and_then, range_fn_part, evaluate,
  eval_kind, push_down, eval_quantile, binary_eval, eval_side,
}
use skaldberg.Prom.Eval.Instant.{instant_backend, evaluate_instant}
use skaldberg.Prom.Eval.Range.{range_backend, evaluate_range}
use skaldberg.Prom.Eval.Size.{size, kind_size, Fits, size_pos, detect_query_kind-Fits}

-- One result, whatever the fuel from `n` on
abbrev pub Settles : {B : Type 0} → (n : ℕ) → (ℕ → Run B) → Type 0
Settles {B = B} n run = (r : Result PromError B) × ((fuel : ℕ) → n ≤ fuel → run fuel ≡ some r)

module _ {A F : Type 0} ⦃f : Float F⦄ (t : Tokens) (b : Backend A F) where
  and_then-Settles :
      {B C : Type 0} (n : ℕ) (run : ℕ → Run B) (g : B → C)
      → Settles n run
      → Settles n (λ fuel. and_then (run fuel) g)
  and_then-Settles n run g (ok a, h) = (ok (g a), λ fuel le. rw (h fuel le))
  and_then-Settles n run g (err e, h) = (err e, λ fuel le. rw (h fuel le))

  push_down-Settles :
      (modifier : Option LabelModifier) (inner : Expr F)
      (on_selector : VectorSelector → Result PromError (List A))
      (on_range_fn : VectorSelector → ℤ → RangeFnOp → Result PromError (List A))
      (on_points : List A → List A)
      → Settles (size inner) (λ fuel. evaluate t b fuel inner)
      → Settles (size inner) (λ fuel.
        push_down t b (evaluate t b fuel) modifier inner on_selector on_range_fn on_points)
  unfolding push_down
  push_down-Settles modifier inner on_selector on_range_fn on_points s =
      let slow = and_then-Settles (size inner) (λ fuel. evaluate t b fuel inner) on_points s in
      elim (Bool-cases (aggregate_can_push_down modifier)) [
        | inr e ↦ (slow.0, λ fuel le. rw e (slow.1 fuel le))
        | inl e ↦ elim (Option-cases (pure_selector inner)) [
          | inr (sel, p) ↦ (on_selector sel, λ fuel le. rw (e, p))
          | inl p ↦ elim (Option-cases (range_fn_part (detect_query_kind t inner))) [
            | inl q ↦ (slow.0, λ fuel le. rw (e, p, q) (slow.1 fuel le))
            | inr ((sel, range_us, fn_op), q) ↦
                (on_range_fn sel range_us fn_op, λ fuel le. rw (e, p, q))
          ]
        ]
      ]

  eval_quantile-Settles :
      (q : F) (inner : Expr F)
      → Settles (size inner) (λ fuel. evaluate t b fuel inner)
      → Settles (size inner) (λ fuel. eval_quantile t b (evaluate t b fuel) q inner)
  unfolding eval_quantile
  eval_quantile-Settles q inner s =
      let slow =
        and_then-Settles (size inner) (λ fuel. evaluate t b fuel inner)
          (λ pts. b.quantile_points pts q) s in
      elim (Bool-cases (is_inner_quantile q)) [
        | inr e ↦ (slow.0, λ fuel le. rw e (slow.1 fuel le))
        | inl e ↦ elim (Option-cases (range_fn_part (detect_query_kind t inner))) [
          | inl p ↦ (slow.0, λ fuel le. rw (e, p) (slow.1 fuel le))
          | inr ((sel, range_us, fn_op), p) ↦
              (b.quantile_over_rangefn sel range_us fn_op q, λ fuel le. rw (e, p))
        ]
      ]

  eval_side-Settles :
      (e : Expr F)
      → Settles (size e) (λ fuel. evaluate t b fuel e)
      → Settles (size e) (λ fuel. eval_side (evaluate t b fuel) e)
  unfolding eval_side
  eval_side-Settles e s = elim (Option-cases (literal e)) [
    | inl p ↦
        let slow = and_then-Settles (size e) (λ fuel. evaluate t b fuel e) Side.vector s in
        (slow.0, λ fuel le. rw (p, eval_side) (slow.1 fuel le))
    | inr (x, p) ↦ (ok (Side.scalar x), λ fuel le. rw (p, eval_side) refl)
  ]

  on_sides-Settles :
      (n m : ℕ) (left right : ℕ → Run (Side A F)) (apply : Side A F → Side A F → List A)
      → Settles n left
      → Settles m right
      → Settles (n + m) (λ fuel. on_sides (left fuel) (right fuel) apply)
  on_sides-Settles n m left right apply (err e, h) s =
      (err e, λ fuel le. rw (h fuel (omega (arith, le))))
  on_sides-Settles n m left right apply (ok l, h) s =
      let (r, h') = and_then-Settles m right (apply l) s in
      (r, λ fuel le. rw (h fuel (omega (arith, le))) (h' fuel (omega (arith, le))))

  binary_eval-Settles :
      (lhs rhs : Expr F) (op : BinOp) (return_bool : Bool)
      → Settles (size lhs) (λ fuel. evaluate t b fuel lhs)
      → Settles (size rhs) (λ fuel. evaluate t b fuel rhs)
      → Settles
          (size lhs + size rhs)
          (λ fuel. binary_eval t b (evaluate t b fuel) lhs rhs op return_bool)
  unfolding binary_eval
  binary_eval-Settles lhs rhs op return_bool sl sr =
      let slow =
        on_sides-Settles (size lhs) (size rhs) (λ fuel. eval_side (evaluate t b fuel) lhs)
          (λ fuel. eval_side (evaluate t b fuel) rhs)
          (λ left right. apply_sides b left right op return_bool) (eval_side-Settles lhs sl)
          (eval_side-Settles rhs sr) in
      elim (Option-cases (scalar_vector_pair lhs rhs)) [
        | inr ((x, sel, scalar_on_left), e) ↦ (
          b.scalar_vector x sel op return_bool scalar_on_left,
          λ fuel le. rw (e, binary_eval) refl,
        )
        | inl e ↦ elim (Option-cases (pure_selector lhs)) [
          | inl p ↦ (slow.0, λ fuel le. rw (e, binary_eval) (rw (p, binary_eval) (slow.1 fuel le)))
          | inr (lsel, p) ↦ elim (Option-cases (pure_selector rhs)) [
            | inl q ↦ (
              slow.0,
              λ fuel le.
                  rw (e, binary_eval) (rw (p, binary_eval) (rw (q, binary_eval) (slow.1 fuel le))),
            )
            | inr (rsel, q) ↦ (
              b.vector_vector lsel rsel op return_bool,
              λ fuel le. rw (e, binary_eval) (rw (p, binary_eval) (rw (q, binary_eval) refl)),
            )
          ]
        ]
      ]

  eval_kind-Settles :
      (kind : QueryKind F)
      → ((e : Expr F) → size e ≤ kind_size kind → Settles (size e) (λ fuel. evaluate t b fuel e))
      → Settles (kind_size kind) (λ fuel. eval_kind t b (evaluate t b fuel) kind)
  unfolding eval_kind
  eval_kind-Settles (QueryKind.selector sel) s = (b.selector sel, λ fuel le. refl)
  eval_kind-Settles (QueryKind.range_fn sel range_us op) s =
      (b.range_fn sel range_us op, λ fuel le. refl)
  eval_kind-Settles (QueryKind.aggregate_kind op modifier inner) s =
      push_down-Settles modifier inner _ _ _ (s inner (omega arith))
  eval_kind-Settles (QueryKind.histogram_quantile q inner) s =
      eval_quantile-Settles q inner (s inner (omega arith))
  eval_kind-Settles (QueryKind.top_k n top modifier inner) s =
      push_down-Settles modifier inner _ _ _ (s inner (omega arith))
  eval_kind-Settles (QueryKind.binary_kind op lhs rhs return_bool) s =
      binary_eval-Settles lhs rhs op return_bool (s lhs (omega arith)) (s rhs (omega arith))

  none-Settles :
      (e : Expr F)
      → detect_query_kind t e ≡ none
      → (fuel : ℕ) → size e ≤ fuel
      → evaluate t b fuel e ≡ some (ok [])
  unfolding evaluate
  none-Settles e p zero le = absurd (omega (arith, le, size_pos e))
  none-Settles e p (suc fuel) le = rw (p, evaluate) refl

  kind-Settles :
      (e : Expr F) (kind : QueryKind F) (r : Result PromError (List A))
      → detect_query_kind t e ≡ some kind
      → kind_size kind < size e
      → ((fuel : ℕ) → kind_size kind ≤ fuel → eval_kind t b (evaluate t b fuel) kind ≡ some r)
      → (fuel : ℕ) → size e ≤ fuel
      → evaluate t b fuel e ≡ some r
  unfolding evaluate
  kind-Settles e kind r p fits h zero le = absurd (omega (arith, le, size_pos e))
  kind-Settles e kind r p fits h (suc fuel) le = rw (p, evaluate) (h fuel (omega (arith, le, fits)))

  fits :
      (e : Expr F) (kind : QueryKind F)
      → detect_query_kind t e ≡ some kind
      → kind_size kind < size e
  fits e kind p =
      let bound : Fits (size e) (detect_query_kind t e) = detect_query_kind-Fits t e in
      rw p at bound

  -- By induction on a bound of the size
  evaluate-below :
      (n : ℕ) (e : Expr F) → size e ≤ n → Settles (size e) (λ fuel. evaluate t b fuel e)
  evaluate-below zero e le = absurd (omega (arith, le, size_pos e))
  evaluate-below (suc n) e le = elim (Option-cases (detect_query_kind t e)) [
    | inl p ↦ (ok [], none-Settles e p)
    | inr (kind, p) ↦
        let (r, h) =
          eval_kind-Settles kind
            (λ part smaller. evaluate-below n part (omega (arith, le, smaller, fits e kind p))) in
        (r, kind-Settles e kind r p (fits e kind p) h)
  ]

  pub evaluate-Settles : (e : Expr F) → Settles (size e) (λ fuel. evaluate t b fuel e)
  evaluate-Settles e = evaluate-below (size e) e (omega arith)

-- The evaluation of any expression ends, at an instant and over a range, with one and the same result,
-- an answer or an error, for all fuel from the number of the expression's nodes on.
pub evaluate_total :
    {P F : Type 0} ⦃f : Float F⦄ (db : Database P F) (t : Tokens) (e : Expr F)
    (time_us start_us end_us step_us : ℤ)
    → Settles (size e) (λ fuel. evaluate_instant db t fuel e time_us)
      × Settles (size e) (λ fuel. evaluate_range db t fuel e start_us end_us step_us)
unfolding evaluate_instant evaluate_range
evaluate_total db t e time_us start_us end_us step_us = (
  evaluate-Settles t (instant_backend db time_us) e,
  evaluate-Settles t (range_backend db start_us end_us step_us) e,
)
