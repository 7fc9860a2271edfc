-- ===== src/Jobs/Laws.antt =====
-- What updates of `export_jobs` keep of every row.
use export_vault.Prelude.{
  ℕ, ◌≡◌, refl, Bool, true, false, some, List, [], ◌∷◌, arith, if◌then◌else◌, Bool-cases,
  Option-cases, inl, inr, All,
}
use export_vault.Text.{Text, text_eq, text_eq_iff}
use export_vault.Model.{ExportJob}
use export_vault.Model.Errors.{ExportStatus}
use export_vault.Result.{ok}
use export_vault.World.{Db}
use export_vault.Jobs.{find_job, set_job, status_eq, update_job, update_job_where, touched, always}

module _ (P : ExportJob → Type 0) where
  pub All-set_job :
      (id : Text) (p : ExportJob → Bool) (f : ExportJob → ExportJob) (js : List ExportJob)
      → ((j : ExportJob) → j.id ≡ id → P j → P (f j))
      → All P js
      → All P (set_job id p f js)
  unfolding set_job
  All-set_job id p f [] keep h = tt
  All-set_job id p f (j ∷ js) keep (pj, h) = elim (Bool-cases (text_eq j.id id)) [
    | inl same ↦ rw same (here (p j) (keep j ((text_eq_iff j.id id).0 same) pj))
    | inr other ↦ rw other (pj, All-set_job id p f js keep h)
  ]
    where
      here : (b : Bool) → P (f j) → All P (if b then f j ∷ js else j ∷ js)
      here true pfj = (pfj, h)
      here false pfj = (pj, h)

  pub find_job-All :
      (id : Text) (js : List ExportJob) (j : ExportJob)
      → find_job id js ≡ some j
      → All P js
      → P j × (j.id ≡ id)
  unfolding find_job
  find_job-All id [] j found h = cc
  find_job-All id (k ∷ js) j found (pk, h) =
      ground (arith, find_job-All id js j, text_eq_iff k.id id)

  -- An update that keeps `P` of the row with that id keeps it of every row.
  pub update_job-All :
      (id : Text) (f : ℕ → ExportJob → ExportJob) (d : Db)
      → ((now : ℕ) (j : ExportJob) → j.id ≡ id → P j → P (touched now (f now j)))
      → All P d.jobs
      → All P (update_job id f d).1.jobs
  unfolding update_job
  update_job-All id f d keep h = elim (Option-cases (find_job id d.jobs)) [
    | inl missing ↦ rw (missing, update_job) h
    | inr (j, found) ↦
        rw (found, update_job)
          (All-set_job id always (λ k. touched d.now (f d.now k)) d.jobs (keep d.now) h)
  ]

  pub update_job_where-All :
      (id : Text) (p : ℕ → ExportJob → Bool) (f : ℕ → ExportJob → ExportJob) (d : Db)
      → ((now : ℕ) (j : ExportJob) → j.id ≡ id → P j → P (touched now (f now j)))
      → All P d.jobs
      → All P (update_job_where id p f d).1.jobs
  unfolding update_job_where
  update_job_where-All id p f d keep h = elim (Option-cases (find_job id d.jobs)) [
    | inl missing ↦ rw (missing, update_job_where) h
    | inr (j, found) ↦
        rw (found, update_job_where)
          (All-set_job id (p d.now) (λ k. touched d.now (f d.now k)) d.jobs (keep d.now) h)
  ]

pub status_eq_sound : (s t : ExportStatus) → status_eq s t ≡ true → s ≡ t
status_eq_sound s t h = ground arith

module _ (id : Text) (p : ExportJob → Bool) (f : ExportJob → ExportJob) where
  -- The row with that id that meets the condition is found as the update left it.
  find_job-set_job :
      (js : List ExportJob) (j : ExportJob)
      → find_job id js ≡ some j
      → p j ≡ true
      → (f j).id ≡ j.id
      → find_job id (set_job id p f js) ≡ some (f j)
  unfolding find_job set_job
  find_job-set_job [] j found met keeps = cc
  find_job-set_job (k ∷ js) j found met keeps = ground (
    arith,
    find_job-set_job js j,
    text_eq_iff k.id id,
    text_eq_iff (f k).id id,
    text_eq_iff (f j).id id,
  )

  find_job-set_job_unmet :
      (js : List ExportJob) (j : ExportJob)
      → find_job id js ≡ some j
      → p j ≡ false
      → find_job id (set_job id p f js) ≡ some j
  unfolding find_job set_job
  find_job-set_job_unmet [] j found met = cc
  find_job-set_job_unmet (k ∷ js) j found met =
      ground (arith, find_job-set_job_unmet js j, text_eq_iff k.id id)

-- An update of a row that is there returns the new row, which is found from then on; the other
-- tables stay as they are.
pub update_job_found :
    (id : Text) (f : ℕ → ExportJob → ExportJob) (d : Db) (j : ExportJob)
    → find_job id d.jobs ≡ some j
    → (f d.now j).id ≡ j.id
    → ((update_job id f d).0 ≡ ok (touched d.now (f d.now j)))
      × (find_job id (update_job id f d).1.jobs ≡ some (touched d.now (f d.now j)))
      × ((update_job id f d).1 ≡ record d { jobs = (update_job id f d).1.jobs })
unfolding update_job
update_job_found id f d j found keeps =
    let after =
      find_job-set_job id always (λ k. touched d.now (f d.now k)) d.jobs j found refl keeps in
    rw (found, update_job) (refl, after, refl)

-- An update with a condition says whether the row met it, and changes it only then.
pub update_job_where_found :
    (id : Text) (p : ℕ → ExportJob → Bool) (f : ℕ → ExportJob → ExportJob) (d : Db) (j : ExportJob)
    → find_job id d.jobs ≡ some j
    → (f d.now j).id ≡ j.id
    → ((update_job_where id p f d).0 ≡ ok (p d.now j))
      × (find_job id (update_job_where id p f d).1.jobs
          ≡ some (if p d.now j then touched d.now (f d.now j) else j))
      × ((update_job_where id p f d).1 ≡ record d { jobs = (update_job_where id p f d).1.jobs })
unfolding update_job_where
update_job_where_found id p f d j found keeps = elim (Bool-cases (p d.now j)) [
  | inl met ↦
      let after =
        find_job-set_job id (p d.now) (λ k. touched d.now (f d.now k)) d.jobs j found met keeps in
      rw (found, update_job_where, met) (refl, after, refl)
  | inr unmet ↦
      let after =
        find_job-set_job_unmet id (p d.now) (λ k. touched d.now (f d.now k)) d.jobs j found unmet in
      rw (found, update_job_where, unmet) (refl, after, refl)
]
