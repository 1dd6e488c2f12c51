-- ===== src/Store/Library/Ops/Guarded.antt =====
-- crates/polyterm-store/src/library.rs: folders among which one file is included read-only, and the
-- indices that are saved.
use poly_term.Prelude.{
  ℕ, zero, suc, ◌+◌, ◌≡◌, ap, subst, ◌≢◌, inl, inr, false, List, [], ◌∷◌, ◌++◌, append_assoc, arith,
  eqb, length, length-append, All, Bool-cases, leb,
}
use poly_term.Core.Session.{SessionId, PathBuf}
use poly_term.Store.Op.{ok}
use poly_term.Store.Library.{
  SessionFileData, empty_file, TopFolder, modify, ensure_writable, without, take_out_tops,
  take_out_changed, insert_sorted, sort_unstable, dedup_after, dedup, remove_at,
}

module _ (P : ℕ → Type 0) where
  All-insert_sorted : (n : ℕ) (ns : List ℕ) → P n → All P ns → All P (insert_sorted n ns)
  unfolding insert_sorted
  All-insert_sorted n [] h hs = (h, tt)
  All-insert_sorted n (m ∷ ms) h hs = elim (Bool-cases (leb n m)) [
    | inl e ↦ rw e (h, hs)
    | inr e ↦ rw e (hs.0, All-insert_sorted n ms h hs.1)
  ]

  pub All-sort_unstable : (ns : List ℕ) → All P ns → All P (sort_unstable ns)
  unfolding sort_unstable
  All-sort_unstable [] hs = tt
  All-sort_unstable (n ∷ ns) hs =
      All-insert_sorted n (sort_unstable ns) hs.0 (All-sort_unstable ns hs.1)

  All-dedup_after : (n : ℕ) (ns : List ℕ) → All P ns → All P (dedup_after n ns)
  unfolding dedup_after
  All-dedup_after n [] hs = tt
  All-dedup_after n (m ∷ ms) hs = elim (Bool-cases (eqb m n)) [
    | inl e ↦ rw e (All-dedup_after m ms hs.1)
    | inr e ↦ rw e (hs.0, All-dedup_after m ms hs.1)
  ]

  pub All-dedup : (ns : List ℕ) → All P ns → All P (dedup ns)
  unfolding dedup
  All-dedup [] hs = tt
  All-dedup (n ∷ ns) hs = (hs.0, All-dedup_after n ns hs.1)

-- The file `q` is included only as a read-only, empty folder.
abbrev pub Guarded : PathBuf → List TopFolder → Type 0
Guarded q = All (λ t. t.path ≡ q → (t.writable ≡ false) × (t.contents ≡ empty_file))

-- The folder at an index is not that of the file `q`.
abbrev pub Free : PathBuf → ℕ → List TopFolder → Type 0
Free q i [] = Unit
Free q zero (t ∷ tops) = t.path ≢ q
Free q (suc i) (t ∷ tops) = Free q i tops

pub Free-writable :
    (q : PathBuf) (i : ℕ) (tops : List TopFolder)
    → Guarded q tops
    → ensure_writable tops i ≡ ok tt
    → Free q i tops
unfolding ensure_writable
Free-writable q i [] g e = tt
Free-writable q zero (t ∷ tops) g e = λ same. ground (arith, g.0 same)
Free-writable q (suc i) (t ∷ tops) g e = Free-writable q i tops g.1 e

pub Free-take_out :
    (q : PathBuf) (id : SessionId) (i : ℕ) (tops : List TopFolder)
    → Free q i tops
    → Free q i (take_out_tops id tops)
unfolding take_out_tops
Free-take_out q id i [] f = tt
Free-take_out q id zero (t ∷ tops) f = f
Free-take_out q id (suc i) (t ∷ tops) f = Free-take_out q id i tops f

pub Free-modify :
    (q : PathBuf) (g : SessionFileData → SessionFileData) (j i : ℕ) (tops : List TopFolder)
    → Free q i tops
    → Free q i (modify j g tops)
unfolding modify
Free-modify q g j i [] f = tt
Free-modify q g zero zero (t ∷ tops) f = f
Free-modify q g zero (suc i) (t ∷ tops) f = f
Free-modify q g (suc j) zero (t ∷ tops) f = f
Free-modify q g (suc j) (suc i) (t ∷ tops) f = Free-modify q g j i tops f

pub Guarded-take_out :
    (q : PathBuf) (id : SessionId) (tops : List TopFolder)
    → Guarded q tops
    → Guarded q (take_out_tops id tops)
unfolding take_out_tops
Guarded-take_out q id [] g = tt
Guarded-take_out q id (t ∷ tops) g =
    (λ same. ((g.0 same).0, ap (without id) (g.0 same).1), Guarded-take_out q id tops g.1)

pub Guarded-modify :
    (q : PathBuf) (f : SessionFileData → SessionFileData) (i : ℕ) (tops : List TopFolder)
    → Free q i tops
    → Guarded q tops
    → Guarded q (modify i f tops)
unfolding modify
Guarded-modify q f i [] free g = tt
Guarded-modify q f zero (t ∷ tops) free g = (λ same. absurd (free same), g.1)
Guarded-modify q f (suc i) (t ∷ tops) free g = (g.0, Guarded-modify q f i tops free g.1)

pub Guarded-remove_at :
    (q : PathBuf) (i : ℕ) (tops : List TopFolder) → Guarded q tops → Guarded q (remove_at i tops)
unfolding remove_at
Guarded-remove_at q i [] g = tt
Guarded-remove_at q zero (t ∷ tops) g = g.1
Guarded-remove_at q (suc i) (t ∷ tops) g = (g.0, Guarded-remove_at q i tops g.1)

Free-middle :
    (q : PathBuf) (before : List TopFolder) (t : TopFolder) (after : List TopFolder)
    → t.path ≢ q
    → Free q (length before) (before ++ t ∷ after)
Free-middle q [] t after ne = ne
Free-middle q (x ∷ before) t after ne = Free-middle q before t after ne

-- The files that `take_out` reports as changed held a session, so `q` is not among them.
pub Free-take_out_changed :
    (q : PathBuf) (id : SessionId) (before tops : List TopFolder)
    → Guarded q tops
    → All (λ i. Free q i (before ++ tops)) (take_out_changed (length before) id tops)
unfolding take_out_changed
Free-take_out_changed q id before [] g = tt
Free-take_out_changed q id before (t ∷ tops) g =
    let count : length (before ++ t ∷ []) ≡ length before + 1 = length-append before (t ∷ []) in
    let rest =
      subst (λ n. All (λ i. Free q i ((before ++ t ∷ []) ++ tops)) (take_out_changed n id tops))
        count (Free-take_out_changed q id (before ++ t ∷ []) tops g.1) in
    let rest' =
      subst (λ l. All (λ i. Free q i l) (take_out_changed (length before + 1) id tops))
        (append_assoc before (t ∷ []) tops) rest in
    elim (Bool-cases (eqb (length (without id t.contents).sessions) (length t.contents.sessions))) [
      | inl e ↦ rw (e, take_out_changed) rest'
      | inr e ↦
          rw (e, take_out_changed)
            (
              Free-middle q before t tops (λ same.
                  let empty = (g.0 same).1 in
                  cc (
                    subst
                      (λ (d : SessionFileData).
                        eqb (length (without id d).sessions) (length d.sessions) ≡ false)
                      empty e)),
              rest',
            )
    ]
