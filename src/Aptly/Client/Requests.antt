-- ===== src/Aptly/Client/Requests.antt =====
-- The methods of AptlyClient: each builds one request and parses its reply.
use aptly_gui.Prelude.{
  ℕ, ◌+◌, ◌-◌, ◌*◌, ◌&&◌, leb, Bool, true, false, Option, none, some, List, [], ◌∷◌, ◌++◌,
  if◌then◌else◌,
}
use aptly_gui.Text.{Text, codes, decimal, strip}
use aptly_gui.Json.{Json, Items, Fields, null, text, arr, obj, num, nil, cons, from_items, get}
use aptly_gui.Exec.{
  Exec, Exc, Result, ok, raised, aptly_error, task_failed, http_error, type_error, value_error,
  pure, raise, catch, lift, ◌>>=◌,
}
use aptly_gui.Exec.Fallible
use aptly_gui.Aptly.Models.{
  Task, TaskProgress, Storage, MirrorSpec, Mirror, Snapshot, Published, Signing, parse_task,
  parse_task_progress, parse_storage, parse_mirror, parse_snapshot, parse_published,
}
use aptly_gui.Aptly.Fields.{index, as_text}
use aptly_gui.Aptly.Client.{post, Outside, py_str, send}
use aptly_gui.Aptly.Client.Bodies.{
  get_request, async_request, mirror_path, publish_path, create_mirror_request,
  update_mirror_request, create_snapshot_request, publish_request, switch_request, delete_request,
  packages_request,
}

-- [parse(item) for item in payload]
unfoldable pub parse_items : {A : Type 0} → (Json → Result A) → Items → Result (List A)
parse_items parse nil = ok []
parse_items parse (cons x xs) =
    Fallible.◌>>=◌ (parse x) (λ a. Fallible.◌>>=◌ (parse_items parse xs) (λ rest. ok (a ∷ rest)))

unfoldable pub parse_list : {A : Type 0} → (Json → Result A) → Json → Result (List A)
unfolding parse_items
parse_list parse (arr xs) = parse_items parse xs
parse_list parse _ = raised (type_error (codes "not iterable"))

-- int(package.get("Size", 0) or 0), of a size that aptly sends as a number or as its digits
digits_value : ℕ → Text → Option ℕ
digits_value acc [] = some acc
digits_value acc (c ∷ s) =
    let rest = digits_value (acc * 10 + (c - 48)) s in if leb 48 c && leb c 57 then rest else none

unfoldable pub int_text : Text → Result ℕ
unfolding digits_value
int_text s = elim (digits_value 0 s) [
  | none ↦ raised (value_error (codes "invalid literal for int()"))
  | some n ↦ ok n
]

size_value : Option Json → Result ℕ
size_value none = ok 0
size_value (some null) = ok 0
size_value (some (num n)) = ok n
size_value (some (text [])) = ok 0
size_value (some (text (c ∷ t))) = int_text (c ∷ t)
size_value (some v) = raised (type_error (codes "int"))

sum_sizes : Items → Result ℕ
unfolding size_value
sum_sizes nil = ok 0
sum_sizes (cons first rest) =
    Fallible.◌>>=◌ (size_value (get (codes "Size") first))
      (λ n. Fallible.◌>>=◌ (sum_sizes rest) (λ total. ok (n + total)))

unfoldable pub total_size : Json → Result ℕ
unfolding sum_sizes
total_size (arr packages) = sum_sizes packages
total_size _ = raised (type_error (codes "not iterable"))

listed : Json → Result (List Json)
listed (arr xs) = ok (from_items xs)
listed _ = raised (type_error (codes "not iterable"))

-- `payload or {}`
abbrev or_object : Json → Json
or_object null = obj Fields.end
or_object v = v

module _ (o : Outside) where
  unfoldable pub version : Exec o.State Text
  version = do
    payload ← send o (get_request (codes "/api/version"))
    v ← lift (Fallible.◌>>=◌ (index (codes "Version") payload) as_text)
    pure (strip v)

  unfoldable pub storage : Exec o.State Storage
  storage = do payload ← send o (get_request (codes "/api/storage")); lift (parse_storage payload)

  -- is_ready: any reply that is not an error will do
  ready_unless : Exc → Exec o.State Bool
  ready_unless (aptly_error message status) = pure false
  ready_unless (task_failed name output) = pure false
  ready_unless (http_error class message) = pure false
  ready_unless e = raise e

  unfoldable pub is_ready : Exec o.State Bool
  unfolding ready_unless
  is_ready = catch (do payload ← send o (get_request (codes "/api/ready")); pure true) ready_unless

  unfoldable pub list_tasks : Exec o.State (List Task)
  list_tasks = do
    payload ← send o (get_request (codes "/api/tasks"))
    lift (parse_list parse_task payload)

  unfoldable pub get_task : ℕ → Exec o.State Task
  get_task task_id = do
    payload ← send o (get_request (codes "/api/tasks/" ++ decimal task_id))
    lift (parse_task payload)

  unfoldable pub task_output : ℕ → Exec o.State Text
  task_output task_id = do
    payload ← send o (get_request (codes "/api/tasks/" ++ (decimal task_id ++ codes "/output")))
    pure (py_str o payload)

  unfoldable pub task_progress : ℕ → Exec o.State (Option TaskProgress)
  task_progress task_id = do
    payload ← send o (get_request (codes "/api/tasks/" ++ (decimal task_id ++ codes "/detail")))
    lift (parse_task_progress (or_object payload))

  unfoldable pub list_mirrors : Exec o.State (List Mirror)
  list_mirrors = do
    payload ← send o (get_request (codes "/api/mirrors"))
    lift (parse_list parse_mirror payload)

  unfoldable pub get_mirror : Text → Exec o.State Mirror
  get_mirror name = do
    payload ← send o (get_request (mirror_path name))
    lift (parse_mirror payload)

  unfoldable pub create_mirror : ℕ → MirrorSpec → Exec o.State Mirror
  create_mirror create_timeout spec = do
    payload ← send o (create_mirror_request create_timeout spec)
    lift (parse_mirror payload)

  unfoldable pub update_mirror : MirrorSpec → Exec o.State Task
  update_mirror spec = do payload ← send o (update_mirror_request spec); lift (parse_task payload)

  unfoldable pub delete_mirror : Text → Bool → Exec o.State Task
  delete_mirror name force = do
    payload ← send o (delete_request (mirror_path name) true force)
    lift (parse_task payload)

  unfoldable pub list_snapshots : Exec o.State (List Snapshot)
  list_snapshots = do
    payload ← send o (get_request (codes "/api/snapshots"))
    lift (parse_list parse_snapshot payload)

  unfoldable pub create_snapshot_from_mirror : Text → Text → Text → Exec o.State Snapshot
  create_snapshot_from_mirror mirror name description = do
    payload ← send o (create_snapshot_request mirror name description)
    lift (parse_snapshot payload)

  unfoldable pub delete_snapshot : Text → Bool → Exec o.State Unit
  delete_snapshot name force = do
    payload ← send o (delete_request (codes "/api/snapshots/" ++ name) false force)
    pure tt

  unfoldable pub mirror_size_bytes : Text → Exec o.State ℕ
  unfolding total_size
  mirror_size_bytes name = do payload ← send o (packages_request name); lift (total_size payload)

  -- list(payload)
  unfoldable pub snapshot_diff : Text → Text → Exec o.State (List Json)
  unfolding listed
  snapshot_diff left right = do
    payload ← send o (get_request (codes "/api/snapshots/" ++ (left ++ (codes "/diff/" ++ right))))
    lift (listed payload)

  unfoldable pub list_published : Exec o.State (List Published)
  list_published = do
    payload ← send o (get_request (codes "/api/publish"))
    lift (parse_list parse_published payload)

  unfoldable pub publish_snapshots :
      Text → Text → List (Text × Text) → List Text → Signing → Exec o.State Task
  publish_snapshots prefix distribution sources architectures signing = do
    payload ← send o (publish_request prefix distribution sources architectures signing)
    lift (parse_task payload)

  unfoldable pub switch_published : Text → Text → List (Text × Text) → Signing → Exec o.State Task
  switch_published prefix distribution sources signing = do
    payload ← send o (switch_request prefix distribution sources signing)
    lift (parse_task payload)

  unfoldable pub drop_published : Text → Text → Bool → Exec o.State Task
  drop_published prefix distribution force = do
    payload ←
        send o (delete_request (publish_path prefix ++ (codes "/" ++ distribution)) true force)
    lift (parse_task payload)

  unfoldable pub db_cleanup : Exec o.State Task
  db_cleanup = do
    payload ← send o (async_request post (codes "/api/db/cleanup") none)
    lift (parse_task payload)
