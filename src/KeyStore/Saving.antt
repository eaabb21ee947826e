-- ===== src/KeyStore/Saving.antt =====
-- What a save leaves of the files, and what `Restore` of internal/security/keystore.go takes from them.
use cat_tag.Common.{
  ◌≡◌, refl, false, [], ◌∷◌, Option, none, some, String, Map, lookup, insert, delete, lookup-insert,
  lookup-delete, Distinct, same, same_iff, same_refl, inl, inr, ◌⊎◌, Option-cases, arith,
}
use cat_tag.Errors.{GoError, Result-cases, ok, foreign}
use cat_tag.Protocol.Bytes.{Bytes}
use cat_tag.KeyStore.{
  StoredKey, FileKeyStore, Disk, Decoded, whole, null, broken_off, Fault, no_fault, open_fault,
  write_fault, rename_fault, Codec, Result?, put_all, temp_file, write_file, save_to_file,
  load_from_file, restore,
}
use cat_tag.KeyStore.Paths.{temp_file-other}

-- The entry of the first map, or else that of the second.
abbrev pub first_of : Option StoredKey → Option StoredKey → Option StoredKey
first_of none o = o
first_of (some k) o = some k

pub lookup-put_all :
    (loaded m : Map StoredKey) (d : String)
    → Distinct loaded
    → lookup d (put_all loaded m) ≡ first_of (lookup d loaded) (lookup d m)
unfolding put_all lookup
lookup-put_all [] m d u = refl
lookup-put_all ((e, k) ∷ rest) m d u =
    ground
      (arith, lookup-put_all rest (insert e k m) d u.1, lookup-insert e d k m, same_iff e d, u.0)

-- A JSON object is read as a map, which has each key once.
pub record ReadsOnce (j : Codec) : Type 0 where
  pub once_whole :
      (content : Bytes) (loaded : Map StoredKey)
      → j.unmarshal content ≡ whole loaded
      → Distinct loaded
  pub once_broken_off :
      (content : Bytes) (loaded : Map StoredKey) (e : GoError)
      → j.unmarshal content ≡ broken_off loaded e
      → Distinct loaded

-- What `Restore` makes of the keys, and returns, by what the file is.
pub data Restored (j : Codec) (path : String) (s : FileKeyStore) (disk : Disk) (d : String)
    (q : FileKeyStore) (refused : Result?) : Type 0 where
  no_file :
      (e : GoError)
      → lookup path disk ≡ none
      → q ≡ s
      → refused ≡ some e
      → Restored j path s disk d q refused
  merged :
      (content : Bytes) (loaded : Map StoredKey)
      → lookup path disk ≡ some content
      → j.unmarshal content ≡ whole loaded
      → lookup d q.keys ≡ first_of (lookup d loaded) (lookup d s.keys)
      → refused ≡ none
      → Restored j path s disk d q refused
  emptied :
      (content : Bytes)
      → lookup path disk ≡ some content
      → j.unmarshal content ≡ null
      → lookup d q.keys ≡ none
      → refused ≡ none
      → Restored j path s disk d q refused
  half_merged :
      (content : Bytes) (loaded : Map StoredKey) (e : GoError)
      → lookup path disk ≡ some content
      → j.unmarshal content ≡ broken_off loaded e
      → lookup d q.keys ≡ first_of (lookup d loaded) (lookup d s.keys)
      → refused ≡ some e
      → Restored j path s disk d q refused

Decoded-cases :
    (o : Decoded)
    → ((loaded : Map StoredKey) × (o ≡ whole loaded))
      ⊎ ((o ≡ null) ⊎ ((loaded : Map StoredKey) × (e : GoError) × (o ≡ broken_off loaded e)))
Decoded-cases (whole loaded) = inl (loaded, refl)
Decoded-cases null = inr (inl refl)
Decoded-cases (broken_off loaded e) = inr (inr (loaded, e, refl))

-- `Restore` puts what it reads of the file into the store and does not take away what the file has
-- not: a key that was stored since the backup stays. A file that breaks off leaves what was read of
-- it in the store, with an error; JSON null leaves no key; without a file nothing changes. What is
-- read has each key once.
pub restore-Restored :
    (j : Codec) (once : ReadsOnce j) (path : String) (s : FileKeyStore) (disk : Disk) (d : String)
    → let (q, refused) = restore j path s disk in Restored j path s disk d q refused
unfolding restore load_from_file lookup
restore-Restored j once path s disk d = elim (Option-cases (lookup path disk)) [
  | inl gone ↦ rw (gone, restore, load_from_file) (no_file (foreign "not exist") gone refl refl)
  | inr (content, found) ↦ elim (Decoded-cases (j.unmarshal content)) [
    | inl (loaded, r) ↦
        rw (found, r, restore, load_from_file)
          (merged content loaded found r
            (lookup-put_all loaded s.keys d (once.once_whole content loaded r)) refl)
    | inr (inl r) ↦ rw (found, r, restore, load_from_file) (emptied content found r refl refl)
    | inr (inr (loaded, e, r)) ↦
        rw (found, r, restore, load_from_file)
          (half_merged content loaded e found r
            (lookup-put_all loaded s.keys d (once.once_broken_off content loaded e r)) refl)
  ]
]

-- Either the file has the marshalled keys and the save succeeds, or it has what it had and the save
-- fails.
pub data Atomic (j : Codec) (path : String) (keys : Map StoredKey) (disk after : Disk)
    : Result? → Type 0 where
  replaced :
      (content : Bytes)
      → j.marshal keys ≡ ok content
      → lookup path after ≡ some content
      → Atomic j path keys disk after none
  kept :
      (e : GoError) → lookup path after ≡ lookup path disk → Atomic j path keys disk after (some e)

write_file-Atomic :
    (j : Codec) (fault : Fault) (path : String) (keys : Map StoredKey) (disk : Disk)
    (content : Bytes) (other : String)
    → j.marshal keys ≡ ok content
    → same path other ≡ false
    → same (temp_file path) other ≡ false
    → let (after, refused) = write_file fault path content disk in
      Atomic j path keys disk after refused × (lookup other after ≡ lookup other disk)
unfolding write_file
write_file-Atomic j no_fault path keys disk content other m a b = (
  replaced content m (
      ground
        (arith, lookup-insert path path content (delete (temp_file path) disk), same_refl path)),
  ground (
    arith,
    lookup-insert path other content (delete (temp_file path) disk),
    lookup-delete (temp_file path) other disk,
  ),
)
write_file-Atomic j (open_fault e) path keys disk content other m a b = (kept e refl, refl)
write_file-Atomic j (write_fault part e) path keys disk content other m a b = (
  kept e (ground (arith, lookup-insert (temp_file path) path part disk, temp_file-other path)),
  ground (arith, lookup-insert (temp_file path) other part disk),
)
write_file-Atomic j (rename_fault e) path keys disk content other m a b = (
  kept e (ground (arith, lookup-insert (temp_file path) path content disk, temp_file-other path)),
  ground (arith, lookup-insert (temp_file path) other content disk),
)

-- A save succeeds with the marshalled keys in the file, or fails with the old file as it was, whether
-- the marshalling, the writing or the renaming went wrong; it touches no file but this one and its
-- temporary one.
pub save_to_file-Atomic :
    (j : Codec) (fault : Fault) (path : String) (s : FileKeyStore) (disk : Disk) (other : String)
    → same path other ≡ false
    → same (temp_file path) other ≡ false
    → let (after, refused) = save_to_file j fault path s disk in
      Atomic j path s.keys disk after refused × (lookup other after ≡ lookup other disk)
unfolding save_to_file
save_to_file-Atomic j fault path s disk other a b = elim (Result-cases (j.marshal s.keys)) [
  | inr (e, m) ↦ rw (m, save_to_file) (kept e refl, refl)
  | inl (content, m) ↦
      rw (m, save_to_file) (write_file-Atomic j fault path s.keys disk content other m a b)
]
