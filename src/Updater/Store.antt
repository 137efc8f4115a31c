-- ===== src/Updater/Store.antt =====
-- services/updater/src/store.rs: the `StateStore` trait with its two implementations. The file
-- system and `serde_json` are parameters.
use lokan_os.Prelude.{String, ◌≡◌, refl, Option, none, some, arith}
use lokan_os.Prelude.Result.{Result, ok, err}
use lokan_os.Updater.State.{UpdaterState}

pub data StateStoreError : Type 0 where
  io : String → StateStoreError
  parse : String → StateStoreError

-- The trait: a store is a value of `Store`, and `save` returns the new one beside its result. The
-- law is what `load` is for: it returns what was saved last.
pub record StateStore : Type 1 where
  pub Store : Type 0
  pub load : Store → Result StateStoreError (Option UpdaterState)
  pub save : Store → UpdaterState → Store × Result StateStoreError (Unit {0})
  pub load-save :
      (st : Store) (s : UpdaterState) → (save st s).1 ≡ ok tt → load (save st s).0 ≡ ok (some s)

-- MemoryStateStore: a mutex around an optional state.
abbrev MemoryStore : Type 0
MemoryStore = Option UpdaterState

abbrev memory_load : MemoryStore → Result StateStoreError (Option UpdaterState)
memory_load st = ok st

abbrev memory_save : MemoryStore → UpdaterState → MemoryStore × Result StateStoreError (Unit {0})
memory_save st s = (some s, ok tt)

abbrev pub memory_store : StateStore
memory_store = record {
  Store = MemoryStore;
  load = memory_load;
  save = memory_save;
  load-save = λ st s h. refl;
}

pub data ReadError : Type 0 where
  not_found : ReadError
  failed : String → ReadError

-- What `FileStateStore` uses of the file system, at its path, and of `serde_json`. A write that is
-- reported as done is read back, and a state that was printed is parsed back.
pub record Files : Type 1 where
  pub Disk : Type 0
  pub Bytes : Type 0
  pub read : Disk → Result ReadError Bytes
  pub create_parent : Disk → Disk × Result String (Unit {0})
  pub write : Disk → Bytes → Disk × Result String (Unit {0})
  pub from_slice : Bytes → Result String UpdaterState
  pub to_vec_pretty : UpdaterState → Result String Bytes
  pub read-write :
      (d : Disk) (bytes : Bytes) → (write d bytes).1 ≡ ok tt → read (write d bytes).0 ≡ ok bytes
  pub from_slice-to_vec :
      (s : UpdaterState) (bytes : Bytes) → to_vec_pretty s ≡ ok bytes → from_slice bytes ≡ ok s

module _ (fs : Files) where
  open fs use {Disk, Bytes, read, create_parent, write, from_slice, to_vec_pretty}

  parsed : Result String UpdaterState → Result StateStoreError (Option UpdaterState)
  parsed (ok s) = ok (some s)
  parsed (err e) = err (parse e)

  load_read : Result ReadError Bytes → Result StateStoreError (Option UpdaterState)
  unfolding parsed
  load_read (ok bytes) = parsed (from_slice bytes)
  load_read (err not_found) = ok none
  load_read (err (failed e)) = err (io e)

  -- FileStateStore::load
  pub file_load : Disk → Result StateStoreError (Option UpdaterState)
  unfolding load_read
  file_load d = load_read (read d)

  done_write : Disk × Result String (Unit {0}) → Disk × Result StateStoreError (Unit {0})
  done_write (d, ok u) = (d, ok tt)
  done_write (d, err e) = (d, err (io e))

  write_json : Disk → Result String Bytes → Disk × Result StateStoreError (Unit {0})
  unfolding done_write
  write_json d (ok bytes) = done_write (write d bytes)
  write_json d (err e) = (d, err (parse e))

  save_in :
      UpdaterState → Disk × Result String (Unit {0}) → Disk × Result StateStoreError (Unit {0})
  unfolding write_json
  save_in s (d, ok u) = write_json d (to_vec_pretty s)
  save_in s (d, err e) = (d, err (io e))

  -- FileStateStore::save
  unfoldable pub file_save : Disk → UpdaterState → Disk × Result StateStoreError (Unit {0})
  unfolding save_in
  file_save d s = save_in s (create_parent d)

  written-load :
      (s : UpdaterState) (d : Disk) (json : Result String Bytes)
      → to_vec_pretty s ≡ json
      → (write_json d json).1 ≡ ok tt
      → file_load (write_json d json).0 ≡ ok (some s)
  unfolding file_load write_json
  written-load s d (ok bytes) e h =
      ground (arith, fs.read-write d bytes, fs.from_slice-to_vec s bytes e)
  written-load s d (err x) e h = cc

  saved_in-load :
      (s : UpdaterState) (r : Disk × Result String (Unit {0}))
      → (save_in s r).1 ≡ ok tt
      → file_load (save_in s r).0 ≡ ok (some s)
  unfolding save_in
  saved_in-load s (d, ok u) h = written-load s d (to_vec_pretty s) refl h
  saved_in-load s (d, err x) h = cc

  pub file_load-save :
      (d : Disk) (s : UpdaterState)
      → (file_save d s).1 ≡ ok tt
      → file_load (file_save d s).0 ≡ ok (some s)
  unfolding file_load file_save
  file_load-save d s h = saved_in-load s (create_parent d) h

-- The file store keeps the trait's law, given what is assumed of the files.
abbrev pub file_store : Files → StateStore
file_store fs = record {
  Store = fs.Disk;
  load = file_load fs;
  save = file_save fs;
  load-save = file_load-save fs;
}
