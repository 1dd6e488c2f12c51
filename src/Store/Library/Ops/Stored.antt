-- ===== src/Store/Library/Ops/Stored.antt =====
-- crates/polyterm-store/src/library.rs: what the files of the folders hold after a session is saved or deleted. The indices that are to be saved are a list.
use poly_term.Prelude.{
  ℕ, zero, suc, ◌+◌, ◌<◌, ◌≡◌, ◌≢◌, refl, sym, ap, subst, ◌∙◌, inl, inr, ◌⊎◌, Bool, true, false,
  not, Option, none, some, List, [], ◌∷◌, ◌++◌, arith, eqb, eqb_iff, leb, any, length, retain, All,
  Bool-cases, length-retain-le,
}
use poly_term.Core.Session.{SessionId, FolderPath, PathBuf, SessionSpec}
use poly_term.Store.Op.{Result, ok, err, continue}
use poly_term.Store.Files.{Files, Json, contents}
use poly_term.Store.Library.{
  SessionFileData, TopFolder, modify, without, take_out_tops, take_out_changed, insert_sorted,
  sort_unstable, dedup_after, dedup, locate, ensure_writable, get_session, push_session, has_id,
}
use poly_term.Store.Library.Ops.{
  World, write_bytes, written, save_at, save_top, save_tops, set_tops, upsert_session,
  delete_session,
}
use poly_term.Store.Library.Ops.Crud.{
  lib-save_top, lib-save_tops, Result-cases, get-upsert, get-delete,
}

Hit : ℕ → List ℕ → Type 0
Hit n ns = any (eqb n) ns ≡ true

Hit-first : (n : ℕ) (ns : List ℕ) → Hit n (n ∷ ns)
unfolding Hit
Hit-first n ns = rw ((eqb_iff n n).1 refl) refl

Hit-later : (n m : ℕ) (ns : List ℕ) → Hit n ns → Hit n (m ∷ ns)
unfolding Hit
Hit-later n m ns h = ground (arith, h)

Hit-other : (n m : ℕ) (ns : List ℕ) → n ≢ m → Hit n (m ∷ ns) → Hit n ns
unfolding Hit
Hit-other n m ns ne h = elim (Bool-cases (eqb n m)) [
  | inl e ↦ absurd (ne ((eqb_iff n m).0 e))
  | inr e ↦ rw e at h
]

Hit-insert_sorted : (n m : ℕ) (ns : List ℕ) → Hit n (m ∷ ns) → Hit n (insert_sorted m ns)
unfolding Hit insert_sorted
Hit-insert_sorted n m [] h = h
Hit-insert_sorted n m (k ∷ ns) h =
    let rest : eqb n m ≡ false → eqb n k ≡ false → any (eqb n) ns ≡ true =
      λ off other. rw (off, other) at h in
    elim (Bool-cases (leb m k)) [
      | inl e ↦ rw e h
      | inr e ↦ rw e (elim (Bool-cases (eqb n k)) [
        | inl same ↦ rw same refl
        | inr other ↦ rw other (
            Hit-insert_sorted n m ns (elim (Bool-cases (eqb n m)) [
              | inl at_m ↦ rw at_m refl
              | inr off ↦ rw off (rest off other)
            ]))
      ])
    ]

Hit-sort_unstable : (n : ℕ) (ns : List ℕ) → Hit n ns → Hit n (sort_unstable ns)
unfolding Hit sort_unstable
Hit-sort_unstable n [] h = h
Hit-sort_unstable n (m ∷ ns) h =
    Hit-insert_sorted n m (sort_unstable ns) (elim (Bool-cases (eqb n m)) [
      | inl e ↦ rw e refl
      | inr e ↦ rw e (Hit-sort_unstable n ns (rw e at h))
    ])

Hit-dedup_after : (n m : ℕ) (ns : List ℕ) → n ≢ m → Hit n ns → Hit n (dedup_after m ns)
unfolding Hit dedup_after
Hit-dedup_after n m [] ne h = h
Hit-dedup_after n m (k ∷ ns) ne h = elim (Bool-cases (eqb k m)) [
  | inl e ↦
      let same : k ≡ m = (eqb_iff k m).0 e in
      let off : n ≢ k = λ at_k. ne (at_k ∙ same) in
      rw e (Hit-dedup_after n k ns off (Hit-other n k ns off h))
  | inr e ↦ rw e (elim (Bool-cases (eqb n k)) [
    | inl at_k ↦ rw at_k refl
    | inr off ↦
        rw off (Hit-dedup_after n k ns (λ at_k. let bad = (eqb_iff n k).1 at_k in cc) (rw off at h))
  ])
]

Hit-dedup : (n : ℕ) (ns : List ℕ) → Hit n ns → Hit n (dedup ns)
unfolding Hit dedup
Hit-dedup n [] h = h
Hit-dedup n (m ∷ ns) h = elim (Bool-cases (eqb n m)) [
  | inl e ↦ rw e refl
  | inr e ↦ rw e (Hit-dedup_after n m ns (λ at_m. let bad = (eqb_iff n m).1 at_m in cc) (rw e at h))
]

retain_all :
    {A : Type 0} (p : A → Bool) (xs : List A) → length (retain p xs) ≡ length xs → retain p xs ≡ xs
retain_all p [] h = refl
retain_all p (x ∷ xs) h = elim (Bool-cases (p x)) [
  | inl e ↦
      let kept : suc (length (retain p xs)) ≡ suc (length xs) = rw e at h in
      rw e (ap (◌∷◌ x) (retain_all p xs (omega (arith, kept))))
  | inr e ↦
      let gone : length (retain p xs) ≡ suc (length xs) = rw e at h in
      absurd (omega (arith, gone, length-retain-le p xs))
]

Hit-append : (n : ℕ) (ns ms : List ℕ) → Hit n ns → Hit n (ns ++ ms)
unfolding Hit
Hit-append n [] ms h = cc
Hit-append n (k ∷ ns) ms h = elim (Bool-cases (eqb n k)) [
  | inl e ↦ rw e refl
  | inr e ↦ rw e (Hit-append n ns ms (rw e at h))
]

Hit-last : (n : ℕ) (ns : List ℕ) → Hit n (ns ++ n ∷ [])
unfolding Hit
Hit-last n [] = Hit-first n []
Hit-last n (k ∷ ns) = Hit-later n k (ns ++ n ∷ []) (Hit-last n ns)

abbrev pub paths : List TopFolder → List PathBuf
paths [] = []
paths (t ∷ tops) = t.path ∷ paths tops

paths-take_out :
    (id : SessionId) (tops : List TopFolder) → paths (take_out_tops id tops) ≡ paths tops
unfolding take_out_tops
paths-take_out id [] = refl
paths-take_out id (t ∷ tops) = ap (◌∷◌ t.path) (paths-take_out id tops)

paths-modify :
    (i : ℕ) (f : SessionFileData → SessionFileData) (tops : List TopFolder)
    → paths (modify i f tops) ≡ paths tops
unfolding modify
paths-modify i f [] = refl
paths-modify zero f (t ∷ tops) = refl
paths-modify (suc i) f (t ∷ tops) = ap (◌∷◌ t.path) (paths-modify i f tops)

module _ (F : Files) (J : Json F.Bytes) where
  -- The folder's file holds what the folder has in memory.
  abbrev pub Holds : F.Disk → TopFolder → Type 0
  Holds disk t =
      (b : F.Bytes) × (F.read disk t.path ≡ contents b) × (J.parse_file b ≡ some t.contents)

  -- So does the file of each folder but those at the given indices, where the first index is `k`.
  StoredBut : List ℕ → ℕ → List TopFolder → F.Disk → Type 0
  StoredBut is k [] disk = Unit
  StoredBut is k (t ∷ tops) disk = ((Hit k is) ⊎ Holds disk t) × StoredBut is (suc k) tops disk

  abbrev pub Stored : World F → Type 0
  Stored w = All (Holds w.disk) w.lib.tops

  -- Writing one file touches the other neither directly nor by its temporary file.
  abbrev pub Apart : PathBuf → PathBuf → Type 0
  Apart p q = (p ≢ q) × (p ≢ F.temp q)

  abbrev pub AllApart : List PathBuf → Type 0
  AllApart [] = Unit
  AllApart (p ∷ ps) = All (λ q. Apart p q × Apart q p) ps × AllApart ps

  Holds-write_bytes :
      (t u : TopFolder) (o : Option F.Bytes) (w : World F)
      → Apart t.path u.path
      → Holds w.disk t
      → (write_bytes F J u.path o w).0 ≡ ok tt
      → Holds (write_bytes F J u.path o w).1.disk t
  unfolding write_bytes
  Holds-write_bytes t u none w apart h done = h
  Holds-write_bytes t u (some b) w apart (c, reads, parses) done =
      let r = F.atomic_write w.disk u.path b in
      (c, kept r (F.write_frame w.disk u.path b t.path c apart.0 apart.1 reads), parses)
    where
      kept :
          (r : F.Disk × Bool)
          → F.read r.0 t.path ≡ contents c
          → F.read (written F J w r).1.disk t.path ≡ contents c
      kept (d, true) e = e
      kept (d, false) e = e

  written-Holds :
      (t : TopFolder) (b : F.Bytes) (w : World F) (r : F.Disk × Bool)
      → J.write_file t.contents ≡ some b
      → (r.1 ≡ true → F.read r.0 t.path ≡ contents b)
      → (written F J w r).0 ≡ ok tt
      → Holds (written F J w r).1.disk t
  written-Holds t b w (d, true) e law done = (b, law refl, J.parse-write_file t.contents b e)
  written-Holds t b w (d, false) e law done = cc

  write_bytes-Holds :
      (t : TopFolder) (o : Option F.Bytes) (w : World F)
      → J.write_file t.contents ≡ o
      → (write_bytes F J t.path o w).0 ≡ ok tt
      → Holds (write_bytes F J t.path o w).1.disk t
  unfolding write_bytes
  write_bytes-Holds t none w e done = cc
  write_bytes-Holds t (some b) w e done =
      written-Holds t b w (F.atomic_write w.disk t.path b) e (F.write_done w.disk t.path b) done

  Holds-save_at :
      (t : TopFolder) (i : ℕ) (tops : List TopFolder) (w : World F)
      → All (λ q. Apart t.path q × Apart q t.path) (paths tops)
      → Holds w.disk t
      → (save_at F J i tops w).0 ≡ ok tt
      → Holds (save_at F J i tops w).1.disk t
  unfolding save_at
  Holds-save_at t i [] w apart h done = h
  Holds-save_at t zero (u ∷ tops) w apart h done =
      Holds-write_bytes t u (J.write_file u.contents) w apart.0.0 h done
  Holds-save_at t (suc i) (u ∷ tops) w apart h done = Holds-save_at t i tops w apart.1 h done

  -- The folders behind the one that is written.
  behind-StoredBut :
      (u : TopFolder) (k j : ℕ) (is : List ℕ) (tops : List TopFolder) (w : World F)
      → k < j
      → All (λ q. Apart u.path q × Apart q u.path) (paths tops)
      → StoredBut (k ∷ is) j tops w.disk
      → (write_bytes F J u.path (J.write_file u.contents) w).0 ≡ ok tt
      → StoredBut is j tops (write_bytes F J u.path (J.write_file u.contents) w).1.disk
  unfolding StoredBut
  behind-StoredBut u k j is [] w lt apart h done = tt
  behind-StoredBut u k j is (t ∷ tops) w lt apart h done = (
    elim h.0 [
      | inl due ↦ inl (Hit-other j k is (λ same. omega (arith, lt, same)) due)
      | inr held ↦ inr (Holds-write_bytes t u (J.write_file u.contents) w apart.0.1 held done)
    ],
    behind-StoredBut u k (suc j) is tops w (omega (arith, lt)) apart.1 h.1 done,
  )

  save_at-StoredBut :
      (k i : ℕ) (is : List ℕ) (tops : List TopFolder) (w : World F)
      → AllApart (paths tops)
      → StoredBut ((k + i) ∷ is) k tops w.disk
      → (save_at F J i tops w).0 ≡ ok tt
      → StoredBut is k tops (save_at F J i tops w).1.disk
  unfolding StoredBut save_at
  save_at-StoredBut k i is [] w apart h done = tt
  save_at-StoredBut k zero is (t ∷ tops) w apart h done = (
    inr (write_bytes-Holds t (J.write_file t.contents) w refl done),
    behind-StoredBut t k (suc k) is tops w (omega arith) apart.0
        (subst (λ n. StoredBut (n ∷ is) (suc k) tops w.disk) (omega arith) h.1) done,
  )
  save_at-StoredBut k (suc i) is (t ∷ tops) w apart h done = (
    elim h.0 [
      | inl due ↦ inl (Hit-other k (k + suc i) is (λ same. omega (arith, same)) due)
      | inr held ↦ inr (Holds-save_at t i tops w apart.0 held done)
    ],
    save_at-StoredBut (suc k) i is tops w apart.1
        (subst (λ n. StoredBut (n ∷ is) (suc k) tops w.disk) (omega arith) h.1) done,
  )

  continue-StoredBut :
      (is : List ℕ) (tops : List TopFolder) (r : Result (Unit {0}) × World F)
      (go : World F → Result (Unit {0}) × World F)
      → (r.0 ≡ ok tt → StoredBut is 0 tops r.1.disk)
      → (StoredBut is 0 tops r.1.disk → (go r.1).0 ≡ ok tt → StoredBut [] 0 tops (go r.1).1.disk)
      → (continue (λ _. go) r.0 r.1).0 ≡ ok tt
      → StoredBut [] 0 tops (continue (λ _. go) r.0 r.1).1.disk
  continue-StoredBut is tops (ok u, w) go saved later done = later (saved refl) done
  continue-StoredBut is tops (err e, w) go saved later done = cc

  save_tops-StoredBut :
      (is : List ℕ) (tops : List TopFolder) (w : World F)
      → w.lib.tops ≡ tops
      → AllApart (paths tops)
      → StoredBut is 0 tops w.disk
      → (save_tops F J is w).0 ≡ ok tt
      → StoredBut [] 0 tops (save_tops F J is w).1.disk
  unfolding save_tops save_top
  save_tops-StoredBut [] tops w same apart h done = h
  save_tops-StoredBut (i ∷ is) tops w same apart h done =
      continue-StoredBut is tops (save_top F J i w) (save_tops F J is)
        (λ saved.
          subst
            (λ ts.
              AllApart (paths ts)
              → StoredBut (i ∷ is) 0 ts w.disk
              → StoredBut is 0 ts (save_top F J i w).1.disk)
            same
            (λ apart h.
              save_at-StoredBut 0 i is w.lib.tops w apart
                (subst (λ n. StoredBut (n ∷ is) 0 w.lib.tops w.disk) (omega arith) h) saved)
            apart h)
        (save_tops-StoredBut is tops (save_top F J i w).1
          (ap (λ l. l.tops) (lib-save_top F J i w) ∙ same) apart)
        done

  StoredBut-hits :
      (is js : List ℕ) (k : ℕ) (tops : List TopFolder) (disk : F.Disk)
      → ((n : ℕ) → Hit n is → Hit n js)
      → StoredBut is k tops disk
      → StoredBut js k tops disk
  unfolding StoredBut
  StoredBut-hits is js k [] disk more h = tt
  StoredBut-hits is js k (t ∷ tops) disk more h = (
    elim h.0 [ inl due ↦ inl (more k due) | inr held ↦ inr held ],
    StoredBut-hits is js (suc k) tops disk more h.1,
  )

  take_out-StoredBut :
      (id : SessionId) (k : ℕ) (tops : List TopFolder) (disk : F.Disk)
      → All (Holds disk) tops
      → StoredBut (take_out_changed k id tops) k (take_out_tops id tops) disk
  unfolding StoredBut take_out_changed take_out_tops
  take_out-StoredBut id k [] disk h = tt
  take_out-StoredBut id k (t ∷ tops) disk h =
      let next = take_out_changed (k + 1) id tops in
      let rest : StoredBut next (suc k) (take_out_tops id tops) disk =
        subst (λ n. StoredBut (take_out_changed n id tops) (suc k) (take_out_tops id tops) disk)
          (omega arith) (take_out-StoredBut id (suc k) tops disk h.1) in
      elim (Bool-cases
        (eqb (length (without id t.contents).sessions) (length t.contents.sessions))) [
          | inl e ↦
              let same : (without id t.contents).sessions ≡ t.contents.sessions =
                retain_all (λ s. not (has_id id s)) t.contents.sessions
                  ((eqb_iff (length (without id t.contents).sessions)
                      (length t.contents.sessions)).0
                    e) in
              let whole : t.contents ≡ without id t.contents =
                ap (λ (l : List SessionSpec). record t.contents { sessions = l }) (sym same) in
              let step : next ≡ take_out_changed k id (t ∷ tops) = rw e refl in
              subst (λ is. StoredBut is k (take_out_tops id (t ∷ tops)) disk) step
                (inr (h.0.0, h.0.1, h.0.2 ∙ ap some whole), rest)
          | inr e ↦
              let step : k ∷ next ≡ take_out_changed k id (t ∷ tops) = rw e refl in
              subst (λ is. StoredBut is k (take_out_tops id (t ∷ tops)) disk) step
                (
                  inl (Hit-first k next),
                  StoredBut-hits next (k ∷ next) (suc k) (take_out_tops id tops) disk
                      (λ n due. Hit-later n k next due) rest,
                )
        ]

  modify-StoredBut :
      (i : ℕ) (f : SessionFileData → SessionFileData) (is : List ℕ) (k : ℕ) (tops : List TopFolder)
      (disk : F.Disk)
      → StoredBut is k tops disk
      → StoredBut (is ++ (k + i) ∷ []) k (modify i f tops) disk
  unfolding StoredBut modify
  modify-StoredBut i f is k [] disk h = tt
  modify-StoredBut zero f is k (t ∷ tops) disk h = (
    inl (subst (λ n. Hit k (is ++ n ∷ [])) (omega arith) (Hit-last k is)),
    StoredBut-hits is _ (suc k) tops disk (λ n due. Hit-append n is _ due) h.1,
  )
  modify-StoredBut (suc i) f is k (t ∷ tops) disk h = (
    elim h.0 [ inl due ↦ inl (Hit-append k is _ due) | inr held ↦ inr held ],
    subst (λ n. StoredBut (is ++ n ∷ []) (suc k) (modify i f tops) disk) (omega arith)
        (modify-StoredBut i f is (suc k) tops disk h.1),
  )

  All-Holds :
      (k : ℕ) (tops : List TopFolder) (disk : F.Disk)
      → StoredBut [] k tops disk
      → All (Holds disk) tops
  unfolding StoredBut Hit
  All-Holds k [] disk h = tt
  All-Holds k (t ∷ tops) disk h =
      (elim h.0 [ inl due ↦ cc | inr held ↦ held ], All-Holds (suc k) tops disk h.1)

  saved-Stored :
      (is : List ℕ) (w : World F)
      → AllApart (paths w.lib.tops)
      → StoredBut is 0 w.lib.tops w.disk
      → (save_tops F J is w).0 ≡ ok tt
      → Stored (save_tops F J is w).1
  saved-Stored is w apart h done =
      subst (λ l. All (Holds (save_tops F J is w).1.disk) l.tops) (sym (lib-save_tops F J is w))
        (All-Holds 0 w.lib.tops (save_tops F J is w).1.disk
          (save_tops-StoredBut is w.lib.tops w refl apart h done))

  abbrev saved_indices : SessionSpec → ℕ → World F → List ℕ
  saved_indices spec i w = take_out_changed 0 spec.id w.lib.tops ++ i ∷ []

  placed-Stored :
      (spec : SessionSpec) (i : ℕ) (rel : FolderPath) (w : World F)
      → AllApart (paths w.lib.tops)
      → Stored w
      → (let after =
            set_tops F J
              (modify i
                (push_session (record spec { folder = rel }))
                (take_out_tops spec.id w.lib.tops))
              w in
          (save_tops F J (dedup (sort_unstable (saved_indices spec i w))) after).0 ≡ ok tt
          → Stored (save_tops F J (dedup (sort_unstable (saved_indices spec i w))) after).1)
  placed-Stored spec i rel w apart h done =
      let push = push_session (record spec { folder = rel }) in
      let tops = take_out_tops spec.id w.lib.tops in
      let is = take_out_changed 0 spec.id w.lib.tops in
      saved-Stored (dedup (sort_unstable (is ++ i ∷ []))) (set_tops F J (modify i push tops) w)
        (subst AllApart (sym (paths-modify i push tops ∙ paths-take_out spec.id w.lib.tops)) apart)
        (StoredBut-hits (is ++ i ∷ []) (dedup (sort_unstable (is ++ i ∷ []))) 0 (modify i push tops)
          w.disk
          (λ n due.
            Hit-dedup n (sort_unstable (is ++ i ∷ [])) (Hit-sort_unstable n (is ++ i ∷ []) due))
          (subst (λ n. StoredBut (is ++ n ∷ []) 0 (modify i push tops) w.disk) (omega arith)
            (modify-StoredBut i push is 0 tops w.disk
              (take_out-StoredBut spec.id 0 w.lib.tops w.disk h))))
        done

  -- Where no two files of the library touch each other and each holds what its folder has in memory, then after
  -- a `delete_session` that succeeds each file holds what its folder has in memory, where the session no longer is.
  delete-Stored :
      (id : SessionId) (w : World F)
      → AllApart (paths w.lib.tops)
      → Stored w
      → (delete_session F J id w).0 ≡ ok tt
      → Stored (delete_session F J id w).1
        × (get_session (delete_session F J id w).1.lib.tops id ≡ none)
  unfolding delete_session
  delete-Stored id w apart h done = (
    saved-Stored (take_out_changed 0 id w.lib.tops) (set_tops F J (take_out_tops id w.lib.tops) w)
        (subst AllApart (sym (paths-take_out id w.lib.tops)) apart)
        (take_out-StoredBut id 0 w.lib.tops w.disk h) done,
    (get-delete F J id w).0,
  )

  upsert_files-Stored :
      (spec : SessionSpec) (w : World F)
      → AllApart (paths w.lib.tops)
      → Stored w
      → (upsert_session F J spec w).0 ≡ ok tt
      → Stored (upsert_session F J spec w).1
  unfolding upsert_session
  upsert_files-Stored spec w apart h done = elim (Result-cases (locate w.lib.tops spec.folder)) [
    | inl (e, missing) ↦ let bad = rw (missing, continue) at done in cc
    | inr ((i, rel), found) ↦ elim (Result-cases (ensure_writable w.lib.tops i)) [
      | inl (e, refused) ↦ let bad = rw (refused, continue) at (rw (found, continue) at done) in cc
      | inr (u, writable) ↦
          rw (found, continue)
            (rw (writable, continue)
              (placed-Stored spec i rel w apart h
                (rw (writable, continue) at (rw (found, continue) at done))))
    ]
  ]

  -- Where no two files of the library touch each other and each holds what its folder has in memory, then after
  -- an `upsert_session` that succeeds each file holds what its folder has in memory, where the session is found by its
  -- id as it was given.
  pub upsert-Stored :
      (spec : SessionSpec) (w : World F)
      → AllApart (paths w.lib.tops)
      → Stored w
      → (upsert_session F J spec w).0 ≡ ok tt
      → Stored (upsert_session F J spec w).1
        × (get_session (upsert_session F J spec w).1.lib.tops spec.id ≡ some spec)
  upsert-Stored spec w apart h done =
      (upsert_files-Stored spec w apart h done, get-upsert F J spec w done)
