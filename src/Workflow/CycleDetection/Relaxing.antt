-- ===== src/Workflow/CycleDetection/Relaxing.antt =====
-- What the neighbours of a step lose when it is done.
use roboppi.Base.{
  mem, ℕ, ◌-◌, String, str_eq, eq_iff, ◌≡◌, refl, ap, ◌∙◌, Bool, true, false, ◌&&◌, List, [], ◌∷◌,
  ltb, leb, arith, or_default, eq_refl,
}
use roboppi.Base.Dict.{get-set}
use roboppi.Base.Dict
use roboppi.Workflow.CycleDetection.{Degrees, relax}
use roboppi.Workflow.CycleDetection.Counting.{occurs}
use roboppi.Workflow.CycleDetection.Graph.{degree}

abbrev pub indicator : Bool → ℕ
indicator true = 1
indicator false = 0

-- A step loses one edge for each occurrence, and is freed, once, if it loses its last.
pub record IsRelaxed (ns : List String) (before after : Degrees) (freed : List String)
    : Type 0 where
  pub has_same : (x : String) → Dict.has x after ≡ Dict.has x before
  pub degree_less : (x : String) → degree x after ≡ degree x before - occurs x ns
  pub freed_once :
      (x : String)
      → occurs x freed ≡ indicator (ltb 0 (degree x before) && leb (degree x before) (occurs x ns))

pub same_get : (x y : String) (m : Degrees) → str_eq x y ≡ true → Dict.get x m ≡ Dict.get y m
same_get x y m e = ap (λ z. Dict.get z m) ((eq_iff x y).0 e)

pub same_degree : (x y : String) (m : Degrees) → str_eq x y ≡ true → degree x m ≡ degree y m
same_degree x y m e = ap (λ z. degree z m) ((eq_iff x y).0 e)

module _ (n : String) (m : Degrees) (present : Dict.has n m ≡ true) where
  lessened : Degrees
  lessened = Dict.set n (or_default (Dict.get n m) 1 - 1) m

  has-lessened : (x : String) → Dict.has x lessened ≡ Dict.has x m
  unfolding Dict.has lessened
  has-lessened x =
      ground (arith, present, same_get n x m, get-set n x (or_default (Dict.get n m) 1 - 1) m)

  degree-lessened : (x : String) → degree x lessened ≡ degree x m - indicator (str_eq n x)
  unfolding Dict.has lessened
  degree-lessened x =
      ground (arith, present, same_get n x m, get-set n x (or_default (Dict.get n m) 1 - 1) m)

  degree_present : or_default (Dict.get n m) 1 ≡ degree n m
  unfolding Dict.has
  degree_present = ground (arith, present)

pub relax-IsRelaxed :
    (ns : List String) (m : Degrees)
    → ((x : String) → mem x ns ≡ true → Dict.has x m ≡ true)
    → IsRelaxed ns m (relax ns m).1 (relax ns m).0
unfolding relax lessened
relax-IsRelaxed [] m h = record {
  has_same = λ x. refl;
  degree_less = λ x. omega arith;
  freed_once = λ x. ground arith;
}
relax-IsRelaxed (n ∷ ns) m h =
    let present = h n (ground (arith, eq_refl n)) in
    let next =
      relax-IsRelaxed ns (lessened n m present)
        (λ x e. ground (arith, has-lessened n m present x, h x)) in
    record {
      has_same = λ x. next.has_same x ∙ has-lessened n m present x;
      degree_less = λ x. ground (arith, next.degree_less x, degree-lessened n m present x);
      freed_once = λ x. ground (
        arith,
        next.freed_once x,
        degree-lessened n m present x,
        degree_present n m present,
        same_degree n x m,
      );
    }
