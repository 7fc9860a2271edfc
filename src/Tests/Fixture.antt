-- ===== src/Tests/Fixture.antt =====
-- A small installation: an object store as a list of objects, a queue as a list of entries, a parser
-- that reads RFC 4180 in UTF-8, no other processes, and the faults that a test wants; five records and one job.
use export_vault.Prelude.{
  ◌||◌, ℕ, Bool, true, false, Option, none, some, List, [], ◌∷◌, ◌&&◌, if◌then◌else◌, length, refl,
}
use export_vault.Prelude.Int.{pos}
use export_vault.Text.{Text, codes, text_eq}
use export_vault.Text.Utf8Reader.{decode}
use export_vault.Csv.Rfc.{read}
use export_vault.Model.{RawRecordRow, ExportJob, hundredths}
use export_vault.Model.Errors.{ExportStatus, plain, foreign, running}
use export_vault.Model.Errors
use export_vault.Result.{Result, ok, err}
use export_vault.World.{Env, Db, World, Fault}
use export_vault.ExportService.{new_job}
use export_vault.Runner.Honest.{NotCompleted}

abbrev pub Objects : Type 0
Objects = List (Text × List ℕ)

unfoldable pub lookup : Text → Objects → Option (List ℕ)
lookup k [] = none
lookup k ((j, v) ∷ os) = if text_eq j k then some v else lookup k os

unfoldable pub without : Text → Objects → Objects
without k [] = []
without k ((j, v) ∷ os) = let rest = without k os in if text_eq j k then rest else (j, v) ∷ rest

unfoldable pub without_all : List Text → Objects → Objects
without_all [] os = os
without_all (k ∷ ks) os = without_all ks (without k os)

unfoldable pub starts_with : Text → Text → Bool
starts_with [] s = true
starts_with (c ∷ p) [] = false
starts_with (c ∷ p) (d ∷ s) = text_eq (c ∷ []) (d ∷ []) && starts_with p s

unfoldable pub keys_with : Text → Objects → List Text
keys_with prefix [] = []
keys_with prefix ((j, v) ∷ os) =
    let rest = keys_with prefix os in if starts_with prefix j then j ∷ rest else rest

unfoldable pub parsed : Option (List (List Text)) → Result (List (List Text))
parsed none = err (plain (foreign 1))
parsed (some rows) = ok rows

unfoldable pub size_of : Option (List ℕ) → Result (Option ℕ)
size_of none = err (plain (foreign 404))
size_of (some body) = ok (some (length body))

unfoldable pub body_found : Option (List ℕ) → Result (Option (List ℕ))
body_found none = err (plain (foreign 404))
body_found (some body) = ok (some body)

has_entry : Text → List Text → Bool
has_entry k [] = false
has_entry k (j ∷ q) = text_eq j k || has_entry k q

unfoldable pub installation : (ℕ → Option Fault) → Env
unfolding lookup without without_all starts_with keys_with parsed size_of body_found has_entry read
    decode text_eq
installation faults = record {
  Objects = Objects;
  put_object = λ k body os. (ok tt, (k, body) ∷ without k os);
  upload = λ k body os. (ok tt, (k, body) ∷ without k os);
  head_object = λ k os. size_of (lookup k os);
  get_object = λ k os. body_found (lookup k os);
  list_objects = λ prefix token os. ok (record { keys = keys_with prefix os; next_token = none });
  delete_objects = λ ks os. (ok tt, without_all ks os);
  Queue = List Text;
  get_job = λ k q. ok (has_entry k q);
  get_state = λ k q. ok false;
  remove_entry = λ k q. (ok tt, q);
  add_entry = λ k q. (ok tt, k ∷ q);
  parse = λ body. parsed (read (decode body));
  sha256 = λ body. [];
  new_uuid = λ n. codes "j2";
  sign_url = λ key name. ok key;
  fault = faults;
  others = λ n d. d;
  max_pages = 9;
  export_batch_size = 2;
  stall_timeout_ms = 45000;
  crash_after_rows = none;
  has_wake_url = true;
  signed_url_ttl = 900;
}

unfoldable pub quiet : Env
unfolding installation
quiet = installation (λ n. none)

abbrev pub row : ℕ → RawRecordRow
row n = record {
  id = n;
  external_id = codes "e";
  name = codes "O'Neil, \"Ann\"";
  email = codes "a@x";
  category = none;
  amount = some (hundredths (pos 1205));
  status = some (codes "new");
  created_at = 0;
  updated_at = 0;
}

-- The rows of the table stand in no order.
abbrev pub table : List RawRecordRow
table = row 9 ∷ row 4 ∷ row 2 ∷ row 7 ∷ row 12 ∷ []

-- Three rows below the boundary 9, in batches of two.
abbrev pub job : ExportJob
job = record (new_job (codes "j1") (codes "u1") 9 3 2 100) { status = Errors.queued }

abbrev pub start_db : Db
start_db = record {
  records = table;
  jobs = job ∷ [];
  checkpoints = [];
  failures = [];
  verifications = [];
  users = [];
  now = 200;
}

unfoldable pub start_of : (faults : ℕ → Option Fault) → World (installation faults)
unfolding installation
start_of faults = record {
  db = start_db;
  objects = [];
  queue = [];
  in_flight = false;
  wakes_sent = 0;
  calls = 0;
}

unfoldable pub start : World quiet
unfolding quiet start_of
start = start_of (λ n. none)

-- The tables at the start are in order: the one job is not COMPLETED.
pub start_ok : NotCompleted job start_db
start_ok = (record { honest = λ i c. cc; same_rows = λ i. refl; same_snapshot = λ i. refl }, tt)
