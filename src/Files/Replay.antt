-- ===== src/Files/Replay.antt =====
-- What a sequence of logged operations means, and that applying the log to a store performs it.
use my_dfs.Common.{
  List, ℕ, ◌≡◌, refl, sym, ◌∙◌, inl, inr, true, false, Option, none, some, [], ◌∷◌, ◌++◌, arith,
  if◌then◌else◌, Bool-cases, Option-cases, Result, ok, Codec,
}
use Prim.Native.String.{String}
use text.Mathlib.Text.{◌==◌ as str_eq}
use text.Mathlib.TextEquality.{eq_iff}
use my_dfs.Files.Dict.{lookup, lookup-insert, lookup-remove}
use my_dfs.Files.Meta.{FileMetadata}
use my_dfs.Files.Store.{
  Journal, FileStore, StoreError, add_marshalled, add_file_metadata, delete_marshalled,
  delete_file_metadata, apply, apply_all,
}
use mathlib.Core.Path.{ap, fun_ext}
use my_dfs.Wal.Entry.{Entry, get_is_delete}

pub data Operation : Type 0 where
  put : FileMetadata → Operation
  delete : String → Operation

-- The files that a client can look up.
abbrev pub View : Type 0
View = String → Option FileMetadata

unfoldable pub perform : Operation → View → View
perform (put meta) view key = if str_eq meta.name key then some meta else view key
perform (delete name) view key = if str_eq name key then none else view key

unfoldable pub replay : List Operation → View → View
replay [] view = view
replay (op ∷ ops) view = replay ops (perform op view)

replay-append :
    (ops more : List Operation) (view : View)
    → replay (ops ++ more) view ≡ replay more (replay ops view)
unfolding replay
replay-append [] more view = refl
replay-append (op ∷ ops) more view = replay-append ops more (perform op view)

-- What the last operation on a name leaves of it, if there is one.
verdict : List Operation → String → Option (Option FileMetadata)
verdict [] key = none
verdict (op ∷ ops) key =
    let rest = verdict ops key in
    let own : Option (Option FileMetadata) = elim op [
      | put meta ↦ if str_eq meta.name key then some (some meta) else none
      | delete name ↦ if str_eq name key then some none else none
    ] in
    elim rest [ some r ↦ some r | none ↦ own ]

abbrev decide_by : Option (Option FileMetadata) → Option FileMetadata → Option FileMetadata
decide_by none before = before
decide_by (some after) before = after

replay-verdict :
    (ops : List Operation) (view : View) (key : String)
    → replay ops view key ≡ decide_by (verdict ops key) (view key)
unfolding replay verdict perform
replay-verdict [] view key = refl
replay-verdict (put meta ∷ ops) view key =
    ground (arith, replay-verdict ops (perform (put meta) view) key)
replay-verdict (delete name ∷ ops) view key =
    ground (arith, replay-verdict ops (perform (delete name) view) key)

decide_by_twice :
    (r : Option (Option FileMetadata)) (x : Option FileMetadata)
    → decide_by r (decide_by r x) ≡ decide_by r x
decide_by_twice none x = refl
decide_by_twice (some r) x = refl

-- A snapshot that already holds the first operations of the log: replaying the log from before the
-- snapshot's end gives what replaying everything gives.
pub replay_overlap :
    (old shared new : List Operation) (view : View) (key : String)
    → replay (shared ++ new) (replay (old ++ shared) view) key
      ≡ replay (old ++ (shared ++ new)) view key
replay_overlap old shared new view key =
    let base = replay old view in
    let stages = λ (w : View).
      ap (λ (f : View). f key) (replay-append shared new w)
      ∙ replay-verdict new (replay shared w) key
      ∙ ap (decide_by (verdict new key)) (replay-verdict shared w key) in
    let twice = decide_by_twice (verdict shared key) (base key) in
    stages (replay (old ++ shared) view)
    ∙ ap (λ x. decide_by (verdict new key) (decide_by (verdict shared key) x))
        (ap (λ (f : View). f key) (replay-append old shared view) ∙ replay-verdict shared base key)
    ∙ ap (decide_by (verdict new key)) twice
    ∙ sym (stages base)
    ∙ ap (λ (f : View). f key) (sym (replay-append old (shared ++ new) view))

module _ {L : Type 0} (journal : Journal L) (codec : Codec FileMetadata) where
  open codec use {marshal, unmarshal}

  -- The metadata has a serialisation.
  abbrev pub HasBytes : FileMetadata → Type 0
  HasBytes meta = (bytes : List ℕ) × (marshal meta ≡ some bytes)

  -- The entry is the log record of the operation.
  abbrev pub Records : Entry → Operation → Type 0
  Records e (put meta) =
      (unmarshal e.payload ≡ some meta) × (get_is_delete e ≡ false) × HasBytes meta
  Records e (delete name) =
      (meta : FileMetadata) × (unmarshal e.payload ≡ some meta)
      × (get_is_delete e ≡ true)
      × (meta.name ≡ name)

  abbrev pub RecordsAll : List Entry → List Operation → Type 0
  RecordsAll [] [] = Unit
  RecordsAll (e ∷ es) (op ∷ ops) = Records e op × RecordsAll es ops
  RecordsAll _ _ = ⊥

  abbrev pub HasBytesAll : FileStore L → Type 0
  HasBytesAll s =
      (key : String) (meta : FileMetadata) → lookup key s.files ≡ some meta → HasBytes meta

  -- Replaying the deletion of a file appends a record to the journal again, and the journal takes it.
  abbrev pub Takes : Operation → FileStore L → Type 0
  Takes (put meta) s = Unit
  Takes (delete name) s =
      (meta : FileMetadata) (bytes : List ℕ)
      → lookup name s.files ≡ some meta
      → marshal meta ≡ some bytes
      → (journal.append s.wal bytes true).1 ≡ true

  -- In each state of the replay, the journal takes the record of the deletion that comes next.
  abbrev pub TakesAll : List Entry → List Operation → FileStore L → Type 0
  TakesAll (e ∷ es) (op ∷ ops) s = Takes op s × TakesAll es ops (apply journal codec e s).0
  TakesAll _ _ s = Unit

  -- One step of the replay.
  abbrev Performs : Operation → FileStore L → FileStore L × Result StoreError (Unit {0}) → Type 0
  Performs op s (s', outcome) =
      (outcome ≡ ok tt)
      × HasBytesAll s'
      × ((key : String) → lookup key s'.files ≡ perform op (λ k. lookup k s.files) key)

  add-Performs :
      (meta : FileMetadata) (s : FileStore L)
      → HasBytesAll s
      → HasBytes meta
      → Performs (put meta) s (add_file_metadata journal codec meta false s)
  unfolding add_file_metadata add_marshalled perform
  add-Performs meta s all (bytes, e) =
      rw (e, add_file_metadata)
        (
          refl,
          λ key other found. elim (Bool-cases (str_eq meta.name key)) [
            | inl hit ↦ (bytes, ground (arith, lookup-insert meta.name key meta s.files))
            | inr miss ↦ all key other (ground (arith, lookup-insert meta.name key meta s.files))
          ],
          λ key. lookup-insert meta.name key meta s.files,
        )

  delete-Performs :
      (name : String) (s : FileStore L)
      → Takes (delete name) s
      → HasBytesAll s
      → Performs (delete name) s (delete_file_metadata journal codec name s)
  unfolding delete_file_metadata delete_marshalled perform
  delete-Performs name s accepts all = elim (Option-cases (lookup name s.files)) [
    | inl missing ↦
        rw (missing, delete_file_metadata) (refl, all, λ key. ground (arith, eq_iff name key))
    | inr (meta, found) ↦
        let (bytes, e) = all name meta found in
        rw (found, delete_file_metadata, e, accepts meta bytes found e)
          (
            refl,
            λ key other known. all key other (ground (arith, lookup-remove name key s.files)),
            λ key. lookup-remove name key s.files,
          )
  ]

  apply-Performs :
      (e : Entry) (op : Operation) (s : FileStore L)
      → Takes op s
      → HasBytesAll s
      → Records e op
      → Performs op s (apply journal codec e s)
  unfolding apply
  apply-Performs e (put meta) s accepts all (decoded, kept, bytes) =
      rw (decoded, apply, kept) (add-Performs meta s all bytes)
  apply-Performs e (delete name) s accepts all (meta, decoded, gone, named) =
      rw (decoded, apply, gone, named) (delete-Performs name s accepts all)

  pub replay_cong :
      (ops : List Operation) (v w : View) (key : String)
      → ((k : String) → v k ≡ w k)
      → replay ops v key ≡ replay ops w key
  replay_cong ops v w key h = ap (λ (f : View). replay ops f key) (fun_ext h)

  -- If every metadata in the store has a serialisation, the entries are the records of a sequence
  -- of additions and deletions, and in each state of the replay the journal takes the record of the
  -- deletion that comes next, where there is a file to delete, then applying the entries succeeds,
  -- and every lookup answers as after these operations in order.
  pub apply_all-replay :
      (es : List Entry) (ops : List Operation) (s : FileStore L)
      → TakesAll es ops s
      → HasBytesAll s
      → RecordsAll es ops
      → let (s', outcome) = apply_all journal codec es s in
        (outcome ≡ ok tt)
        × ((key : String) → lookup key s'.files ≡ replay ops (λ k. lookup k s.files) key)
  unfolding apply_all replay
  apply_all-replay [] [] s accepts all r = (refl, λ key. refl)
  apply_all-replay [] (op ∷ ops) s accepts all r = absurd r
  apply_all-replay (e ∷ es) [] s accepts all r = absurd r
  apply_all-replay (e ∷ es) (op ∷ ops) s accepts all (r, rs) =
      let (done, all', view) = apply-Performs e op s accepts.0 all r in
      let s' = (apply journal codec e s).0 in
      let (done', view') = apply_all-replay es ops s' accepts.1 all' rs in
      rw (done, apply_all)
        (
          done',
          λ key.
              view' key
              ∙ replay_cong ops (λ k. lookup k s'.files) (perform op (λ k. lookup k s.files)) key
                  view,
        )
