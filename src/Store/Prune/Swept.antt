-- ===== src/Store/Prune/Swept.antt =====
-- What a sweep of src/store.rs leaves, put together of what its steps leave.
use immure.Prelude.{
  ℕ, ◌≡◌, refl, ap, sym, ◌∙◌, ◌⊎◌, inl, inr, Bool, true, false, Bool-cases, none, List, [], ◌∷◌,
  ◌++◌,
}
use mathlib.Core.Path.{subst}
use mathlib.Core.List.{Memᴰ}
use mathlib.Core.List.Memᴰ
use immure.FilePath.{OsName, FilePath, path_eq, path_eq_iff}
use immure.World.{Node, Fs, at, erase}
use immure.World.Calls.{at-erase, at-erase_self}
use immure.Store.Prune.{is_temp_item}
use immure.Store.Prune.Leftover.{StaleAt}

-- After the sweep: what changed is a leftover of the place that is gone, and every leftover that
-- was listed is gone.
pub record IsSwept (cutoff : ℕ) (place : FilePath) (items : List (OsName × Node))
    (before after : Fs) : Type 0 where
  pub others :
      (q : FilePath)
      → (at q after ≡ at q before)
        ⊎ ((at q after ≡ none)
            × StaleAt cutoff q before
            × ((c : OsName) × (is_temp_item c ≡ true) × (place ++ c ∷ [] ≡ q)))
  pub gone :
      (c : OsName) (n : Node)
      → Memᴰ (c, n) items
      → is_temp_item c ≡ true
      → StaleAt cutoff (place ++ c ∷ []) before
      → at (place ++ c ∷ []) after ≡ none

stale_same :
    (cutoff : ℕ) (q : FilePath) (fs fs' : Fs)
    → at q fs ≡ at q fs'
    → StaleAt cutoff q fs'
    → StaleAt cutoff q fs
stale_same cutoff q fs fs' same (b, r, t, e, low) = (b, r, t, same ∙ e, low)

stays_gone :
    (cutoff : ℕ) (place : FilePath) (items : List (OsName × Node)) (before after : Fs)
    (q : FilePath)
    → IsSwept cutoff place items before after
    → at q before ≡ none
    → at q after ≡ none
stays_gone cutoff place items before after q swept_rest gone = elim (swept_rest.others q) [
  | inl same ↦ same ∙ gone
  | inr (gone, stale, name) ↦ gone
]

pub skip_one :
    (cutoff : ℕ) (place : FilePath) (c : OsName) (n : Node) (more : List (OsName × Node))
    (before after : Fs)
    → is_temp_item c ≡ false
    → IsSwept cutoff place more before after
    → IsSwept cutoff place ((c, n) ∷ more) before after
skip_one cutoff place c n more before after other rest = record {
  others = rest.others;
  gone = λ c' n' m temp stale. elim (Memᴰ.cases_cons m) [
    | inl x ↦ absurd (true-false (is_temp_item c) (ap (λ x. is_temp_item x.0) (sym x) ∙ temp) other)
    | inr m ↦ rest.gone c' n' m temp stale
  ];
}
  where
    true-false : (b : Bool) → b ≡ true → b ≡ false → ⊥
    true-false b t f = cc

-- One leftover that was kept, since it is young or no file.
pub keep_one :
    (cutoff : ℕ) (place : FilePath) (c : OsName) (n : Node) (more : List (OsName × Node))
    (before after : Fs)
    → (StaleAt cutoff (place ++ c ∷ []) before → ⊥)
    → IsSwept cutoff place more before after
    → IsSwept cutoff place ((c, n) ∷ more) before after
keep_one cutoff place c n more before after young rest = record {
  others = rest.others;
  gone = λ c' n' m temp stale. elim (Memᴰ.cases_cons m) [
    | inl x ↦
        absurd
          (young (subst (λ c. StaleAt cutoff (place ++ c ∷ []) before) (ap (λ x. x.0) x) stale))
    | inr m ↦ rest.gone c' n' m temp stale
  ];
}

-- One that was taken away.
pub take_one :
    (cutoff : ℕ) (place : FilePath) (c : OsName) (n : Node) (more : List (OsName × Node))
    (before after : Fs)
    → is_temp_item c ≡ true
    → StaleAt cutoff (place ++ c ∷ []) before
    → IsSwept cutoff place more (erase (place ++ c ∷ []) before) after
    → IsSwept cutoff place ((c, n) ∷ more) before after
take_one cutoff place c n more before after temp stale rest = record {
  others = λ q. elim (Bool-cases (path_eq p q)) [
    | inl e ↦
        let same = (path_eq_iff p q).0 e in
        inr (erased q same, subst (λ q. StaleAt cutoff q before) same stale, (c, temp, same))
    | inr e ↦ elim (rest.others q) [
      | inl same ↦ inl (same ∙ away q e)
      | inr (gone, stale_q, name) ↦
          inr (gone, stale_same cutoff q before (erase p before) (sym (away q e)) stale_q, name)
    ]
  ];
  gone = λ c' n' m temp' stale'. elim (Bool-cases (path_eq p (place ++ c' ∷ []))) [
    | inl e ↦ erased (place ++ c' ∷ []) ((path_eq_iff p (place ++ c' ∷ [])).0 e)
    | inr e ↦ elim (Memᴰ.cases_cons m) [
      | inl x ↦ erased (place ++ c' ∷ []) (ap (λ x. place ++ x.0 ∷ []) (sym x))
      | inr m ↦ rest.gone c' n' m temp' (
          stale_same cutoff (place ++ c' ∷ []) (erase p before) before (away (place ++ c' ∷ []) e)
            stale')
    ]
  ];
}
  where
    p : FilePath
    p = place ++ c ∷ []

    away : (q : FilePath) → path_eq p q ≡ false → at q (erase p before) ≡ at q before
    away q e = at-erase p q before ∙ rw e refl

    erased : (q : FilePath) → p ≡ q → at q after ≡ none
    erased q same =
        stays_gone cutoff place more (erase p before) after q rest
          (ap (λ q. at q (erase p before)) (sym same) ∙ at-erase_self p before)
