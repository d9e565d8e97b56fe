-- ===== src/Transitions.antt =====
-- Tables of allowed transitions, as packages/projects/src/index.js and packages/permits/src/index.js
-- keep them: an object literal of lists, and tests of all their entries.
use xygo_aec.Base.{
  String, Bool, true, ◌&&◌, List, [], ◌∷◌, includes, ◌===◌, eq_of_===, every, ◌≡◌, sym, subst,
  arith, Bool-cases, inl, inr, if◌then◌else◌,
}

abbrev pub Table : Type 0
Table = List (String × List String)

-- `table[s] ?? []`
abbrev pub targets : Table → String → List String
targets [] s = []
targets ((k, ts) ∷ rest) s = if s === k then ts else targets rest s

-- A test of every transition of a table.
abbrev pub every_edge : (String → String → Bool) → Table → Bool
every_edge p [] = true
every_edge p ((k, ts) ∷ rest) = every (p k) ts && every_edge p rest

and-left : (a b : Bool) → (a && b) ≡ true → a ≡ true
and-left a b h = ground arith

and-right : (a b : Bool) → (a && b) ≡ true → b ≡ true
and-right a b h = ground arith

pub every-includes :
    (p : String → Bool) (ts : List String) (t : String)
    → every p ts ≡ true
    → includes ts t ≡ true
    → p t ≡ true
every-includes p [] t h i = cc
every-includes p (u ∷ us) t h i = elim (Bool-cases (t === u)) [
  | inl e ↦ subst (λ x. p x ≡ true) (sym (eq_of_=== t u e)) (and-left (p u) (every p us) h)
  | inr n ↦ every-includes p us t (and-right (p u) (every p us) h) (ground arith)
]

pub every_edge_sound :
    (p : String → String → Bool) (table : Table) (s t : String)
    → every_edge p table ≡ true
    → includes (targets table s) t ≡ true
    → p s t ≡ true
every_edge_sound p [] s t h i = cc
every_edge_sound p ((k, ts) ∷ rest) s t h i = elim (Bool-cases (s === k)) [
  | inl e ↦
      subst (λ x. p x t ≡ true) (sym (eq_of_=== s k e))
        (every-includes (p k) ts t (and-left (every (p k) ts) (every_edge p rest) h) (rw e at i))
  | inr n ↦
      every_edge_sound p rest s t (and-right (every (p k) ts) (every_edge p rest) h) (rw n at i)
]
