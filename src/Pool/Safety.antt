-- ===== src/Pool/Safety.antt =====
-- Every schedule of a pool keeps its tasks: none is lost, none is run twice.

use nsg_parser.Pool.{
  Task, Pool, new_pool, is_some, has_errors, Step, Steps, send, finish, here, next,
}
use nsg_parser.Prelude.{
  ℕ, suc, ◌≤◌, ◌≡◌, refl, ap, ◌∙◌, subst, Bool, true, false, ◌||◌, Option, List, [], ◌∷◌, ◌++◌, map,
  append-nil, arith, length, All,
}
use mathlib.Core.Bool.{Bool-set}
use mathlib.Core.List.{Perm, Permᴰ, perm_middle, map-append}
use mathlib.Core.List.Perm
use mathlib.Core.Logic.{∥∥₁_elim}

or_swap : (a b c : Bool) → (a || (b || c)) ≡ (b || (a || c))
or_swap true true c = refl
or_swap true false c = refl
or_swap false b c = refl

module _ {F E : Type 0} (call : F → Option E) where
  abbrev pub works : List (Task F E) → List F
  works tasks = map (λ t. t.f) tasks

  abbrev all_works : Pool F E → List F
  all_works p = works p.waiting ++ (works p.running ++ works p.finished)

  -- A finished task has the result of its own work.
  abbrev pub IsRun : Task F E → Type 0
  IsRun t = t.err ≡ call t.f

  -- The tasks are the given ones, each in one place; the finished ones are run; and no more run at
  -- a time than there are workers.
  pub record Kept (tasks : List (Task F E)) (p : Pool F E) : Type 0 where
    pub same : Perm (all_works p) (works tasks)
    pub run_all : All IsRun p.finished
    pub bounded : length p.running ≤ p.concurrency

  works_taken :
      (ts us : List (Task F E)) (t : Task F E) (ds : List F)
      → Perm (works (ts ++ us) ++ t.f ∷ ds) (works (ts ++ t ∷ us) ++ ds)
  works_taken ts us t ds = Perm.trans (perm_middle (works (ts ++ us)) ds) (
      Perm.append_right {l₁ = t.f ∷ works (ts ++ us)} {l₂ = works (ts ++ t ∷ us)} ds (
        rw (map-append (λ t. t.f) ts us, map-append (λ t. t.f) ts (t ∷ us))
          (Perm.symm (perm_middle (works ts) (works us)))))

  pub length_taken :
      (ts us : List (Task F E)) (t : Task F E) → length (ts ++ t ∷ us) ≡ suc (length (ts ++ us))
  length_taken [] us t = refl
  length_taken (x ∷ ts) us t = ap suc (length_taken ts us t)

  Step-Kept :
      {tasks : List (Task F E)} {p q : Pool F E} → Step call p q → Kept tasks p → Kept tasks q
  Step-Kept {tasks} (send p t ts w idle) k = record {
    same = Perm.trans (perm_middle (works ts) (works p.running ++ works p.finished)) (
        subst (λ ws. Perm (works ws ++ (works p.running ++ works p.finished)) (works tasks)) w
          k.same);
    run_all = k.run_all;
    bounded = omega arith;
  }
  Step-Kept {tasks} (finish p ts us t r) k = record {
    same =
        Perm.trans (Perm.append_left (works p.waiting) (works_taken ts us t (works p.finished))) (
          subst (λ rs. Perm (works p.waiting ++ (works rs ++ works p.finished)) (works tasks)) r
            k.same);
    run_all = (refl, k.run_all);
    bounded =
        let e = length_taken ts us t in
        let b = subst (λ rs. length rs ≤ p.concurrency) r k.bounded in omega arith;
  }

  pub Steps-Kept :
      {tasks : List (Task F E)} {n : ℕ} {p q : Pool F E}
      → Kept tasks p
      → Steps call n p q
      → Kept tasks q
  Steps-Kept k here = k
  Steps-Kept k (next ss s) = Step-Kept s (Steps-Kept k ss)

  pub new_pool-Kept : (tasks : List (Task F E)) (n : ℕ) → Kept tasks (new_pool tasks n)
  new_pool-Kept tasks n = record {
    same = rw (append-nil (works tasks)) (Perm.refl (works tasks));
    run_all = tt;
    bounded = omega arith;
  }

  -- Some work of the list fails.
  abbrev pub fails : List F → Bool
  fails [] = false
  fails (f ∷ fs) = is_some (call f) || fails fs

  fails-Permᴰ : {fs gs : List F} → Permᴰ fs gs → fails fs ≡ fails gs
  fails-Permᴰ Permᴰ.nil = refl
  fails-Permᴰ (Permᴰ.cons e p) = rw (e, fails-Permᴰ p) refl
  fails-Permᴰ (Permᴰ.swap {a = a} {b = b} {l = l} e f) =
      rw (← e, ← f) (or_swap (is_some (call a)) (is_some (call b)) (fails l))
  fails-Permᴰ (Permᴰ.trans p q) = fails-Permᴰ p ∙ fails-Permᴰ q

  pub fails-perm : {fs gs : List F} → Perm fs gs → fails fs ≡ fails gs
  fails-perm {fs} {gs} p = ∥∥₁_elim p (Bool-set (fails fs) (fails gs)) fails-Permᴰ

  pub has_errors-fails : (ts : List (Task F E)) → All IsRun ts → has_errors ts ≡ fails (works ts)
  unfolding has_errors
  has_errors-fails [] h = refl
  has_errors-fails (t ∷ ts) (e, h) = rw (e, has_errors-fails ts h) refl
