-- ===== src/KeyStore.antt =====
-- `FileKeyStore` of internal/security/keystore.go, with the files it writes. A method is one step
-- under the lock. What the file system answers is an argument of each call that saves: a write can
-- fail after a part of the data, and a rename can fail. encoding/json is the parameter `Codec`, the
-- ciphers are `Crypto`, and what `rand.Read` gives is an argument.
pub mod RoundTrip
pub mod Paths
pub mod Saving
pub mod Durable
use Prim.Native.String.{◌++◌ as ◌+++◌}
use cat_tag.Common.{
  ℕ, suc, ◌+◌, Bool, true, false, not, List, [], ◌∷◌, ◌++◌, Option, none, some, if◌then◌else◌, ltb,
  String, length, take, drop, keys, Map, lookup, insert, delete,
}
use cat_tag.Errors.{
  ◌>>=◌, GoError, foreign, Result, ok, err, new_bluetooth_error_with_device, wrap_error, not_found,
  general, encryption_failed,
}
use cat_tag.Protocol.Bytes.{Bytes}
use cat_tag.Encryption.{Crypto, no_error}

pub record StoredKey : Type 0 where
  pub device_id : String
  pub key_data : Bytes
  pub salt : Bytes
  pub created_at : ℕ
  pub updated_at : ℕ
  pub access_count : ℕ
  pub last_access : ℕ
  pub metadata : Map String

pub record KeyStoreConfig : Type 0 where
  pub store_path : String
  pub password : String
  pub auto_save : Bool
  pub save_interval : ℕ

pub record FileKeyStore : Type 0 where
  pub store_path : String
  pub password : String
  pub keys : Map StoredKey
  pub auto_save : Bool
  pub is_stopped : Bool

-- The files by their paths.
abbrev pub Disk : Type 0
Disk = Map Bytes

-- What goes wrong when a file is written: the temporary file cannot be opened; its writing breaks off,
-- after a part; or the rename fails.
pub data Fault : Type 0 where
  no_fault : Fault
  open_fault : GoError → Fault
  write_fault : Bytes → GoError → Fault
  rename_fault : GoError → Fault

-- What `json.Unmarshal` does to the map that it is given: it puts the entries in, none of them null;
-- it makes the map nil, which is the empty one here; or it fails, with the entries that it had put in.
pub data Decoded : Type 0 where
  whole : Map StoredKey → Decoded
  null : Decoded
  broken_off : Map StoredKey → GoError → Decoded

pub record Codec : Type 0 where
  pub marshal : Map StoredKey → Result Bytes
  pub unmarshal : Bytes → Decoded

abbrev pub Result? : Type 0
Result? = Option GoError

abbrev pub missing {ℓ} : {A : Type ℓ} → String → String → Result A
missing device operation = err (new_bluetooth_error_with_device not_found device operation)

-- The store with what its saving gave.
abbrev pub saved : FileKeyStore → Disk × Result? → FileKeyStore × Disk × Result?
saved s w = (s, w.0, w.1)

-- The entries of one map put into another.
unfoldable pub put_all : Map StoredKey → Map StoredKey → Map StoredKey
put_all [] m = m
put_all ((d, k) ∷ rest) m = put_all rest (insert d k m)

abbrev pub temp_file : String → String
temp_file path = path +++ ".tmp"

-- `ioutil.WriteFile` to the temporary file, and `os.Rename`
unfoldable pub write_file : Fault → String → Bytes → Disk → Disk × Result?
write_file no_fault path content disk = (insert path content (delete (temp_file path) disk), none)
write_file (open_fault e) path content disk = (disk, some e)
write_file (write_fault part e) path content disk = (insert (temp_file path) part disk, some e)
write_file (rename_fault e) path content disk = (insert (temp_file path) content disk, some e)

module _ (j : Codec) where
  unfoldable pub save_to_file : Fault → String → FileKeyStore → Disk → Disk × Result?
  unfolding write_file
  save_to_file fault path s disk = elim (j.marshal s.keys) [
    | err e ↦ (disk, some e)
    | ok content ↦ write_file fault path content disk
  ]

  -- `os.IsNotExist` holds of the error where there is no file.
  unfoldable pub load_from_file : String → FileKeyStore → Disk → FileKeyStore × Result?
  unfolding put_all
  load_from_file path s disk = elim (lookup path disk) [
    | none ↦ (s, some (foreign "not exist"))
    | some content ↦ elim (j.unmarshal content) [
      | whole loaded ↦ (record s { keys = put_all loaded s.keys }, none)
      | null ↦ (record s { keys = [] }, none)
      | broken_off loaded e ↦ (record s { keys = put_all loaded s.keys }, some e)
    ]
  ]

  -- The directory of the path is there.
  unfoldable pub new_file_key_store : KeyStoreConfig → Disk → Result FileKeyStore
  unfolding load_from_file
  new_file_key_store c disk =
      let s : FileKeyStore = record {
        store_path = c.store_path;
        password = c.password;
        keys = [];
        auto_save = c.auto_save;
        is_stopped = false;
      } in
      elim (lookup c.store_path disk) [
        | none ↦ ok s
        | some content ↦
            (let (loaded, refused) = load_from_file c.store_path s disk in
              elim refused [
                | none ↦ ok loaded
                | some e ↦ err (wrap_error e general "" "new_file_keystore")
              ])
      ]

  -- The store is saved at once, where it is not saved from time to time.
  unfoldable pub save_now : Fault → FileKeyStore → Disk → Disk × Result?
  unfolding save_to_file
  save_now fault s disk =
      if s.auto_save then (disk, none) else save_to_file fault s.store_path s disk

  unfoldable pub delete_key : Fault → String → FileKeyStore → Disk → FileKeyStore × Disk × Result?
  unfolding save_now
  delete_key fault d s disk = elim (lookup d s.keys) [
    | none ↦ (s, disk, some (new_bluetooth_error_with_device not_found d "delete_key"))
    | some k ↦ (let q = record s { keys = delete d s.keys } in saved q (save_now fault q disk))
  ]

  -- `stamp` is the path of the store with the time in seconds.
  unfoldable pub backup : Fault → String → FileKeyStore → Disk → Disk × Result?
  unfolding save_to_file
  backup fault stamp s disk = save_to_file fault stamp s disk

  unfoldable pub restore : String → FileKeyStore → Disk → FileKeyStore × Result?
  unfolding load_from_file
  restore path s disk = load_from_file path s disk

  -- A second call of `Close` closes a closed channel, which panics: none.
  unfoldable pub close : Fault → FileKeyStore → Disk → Option (FileKeyStore × Disk × Result?)
  unfolding save_to_file
  close fault s disk =
      if s.is_stopped
      then none
      else (let q = record s { is_stopped = true } in
          some (saved q (save_to_file fault s.store_path q disk)))

  unfoldable pub young_keys : ℕ → ℕ → Map StoredKey → Map StoredKey
  young_keys now max_age [] = []
  young_keys now max_age ((d, k) ∷ rest) =
      let kept = young_keys now max_age rest in
      if ltb (k.created_at + max_age) now then kept else (d, k) ∷ kept

  -- The store is saved where a key went.
  unfoldable pub cleanup_old_keys :
      Fault → ℕ → ℕ → FileKeyStore → Disk → FileKeyStore × Disk × Result?
  unfolding young_keys save_now
  cleanup_old_keys fault now max_age s disk =
      let q = record s { keys = young_keys now max_age s.keys } in
      if ltb (length q.keys) (length s.keys)
      then saved q (save_now fault q disk)
      else (q, disk, none)

module _ (x : Crypto) where
  unfoldable pub derive_key : String → Bytes → Bytes
  derive_key password salt = x.sha256 (x.text password ++ salt)

  -- `aes.NewCipher` and `cipher.NewGCM`
  unfoldable pub make_cipher : Bytes → Result (Unit {0})
  make_cipher key = do _ ← no_error (x.new_cipher key); no_error (x.new_gcm key)

  -- The nonce stands before what is sealed.
  unfoldable pub encrypt_key : String → Bytes → Result Bytes → Result Bytes → Result (Bytes × Bytes)
  unfolding derive_key make_cipher
  encrypt_key password key random_salt random_nonce = do
    salt ← random_salt
    _ ← make_cipher (derive_key password salt)
    nonce ← random_nonce
    ok (nonce ++ x.seal (derive_key password salt) nonce key, salt)

  unfoldable pub decrypt_key : String → Bytes → Bytes → Result Bytes
  unfolding derive_key make_cipher
  decrypt_key password sealed salt = do
    _ ← make_cipher (derive_key password salt)
    (if ltb (length sealed) x.nonce_size
        then err (foreign "length")
        else x.open_sealed (derive_key password salt) (take x.nonce_size sealed)
            (drop x.nonce_size sealed))

-- A key that is stored, before it is saved.
unfoldable pub fresh_stored_key : ℕ → String → Bytes → Bytes → StoredKey
fresh_stored_key now d sealed salt = record {
  device_id = d;
  key_data = sealed;
  salt = salt;
  created_at = now;
  updated_at = now;
  access_count = 0;
  last_access = now;
  metadata = [];
}

-- A call under a device's key, which returns an error where there is none.
abbrev pub with_key {ℓ} :
    {A : Type ℓ}
    → String
    → String
    → FileKeyStore
    → (StoredKey → FileKeyStore × Result A)
    → FileKeyStore × Result A
with_key d operation s f = elim (lookup d s.keys) [ none ↦ (s, missing d operation) | some k ↦ f k ]

abbrev pub put_key : String → StoredKey → FileKeyStore → FileKeyStore
put_key d k s = record s { keys = insert d k s.keys }

unfoldable pub set_metadata :
    ℕ → String → String → String → FileKeyStore → FileKeyStore × Result (Unit {0})
set_metadata now d name value s = with_key d "set_metadata" s λ k.
    (put_key d (record k { metadata = insert name value k.metadata; updated_at = now }) s, ok tt)

unfoldable pub get_metadata : String → String → FileKeyStore → FileKeyStore × Result String
get_metadata d name s = with_key d "get_metadata" s λ k.
    (s, elim (lookup name k.metadata) [ none ↦ missing d "get_metadata" | some value ↦ ok value ])

unfoldable pub list_keys : FileKeyStore → List String
list_keys s = keys s.keys

unfoldable pub get_key_info : String → FileKeyStore → FileKeyStore × Result StoredKey
get_key_info d s = with_key d "get_key_info" s λ k. (s, ok (record k { key_data = []; salt = [] }))

module _ (x : Crypto) (j : Codec) where
  unfoldable pub store_key :
      Fault
      → ℕ
      → String
      → Bytes
      → Result Bytes
      → Result Bytes
      → FileKeyStore
      → Disk
      → FileKeyStore × Disk × Result?
  unfolding encrypt_key fresh_stored_key save_now
  store_key fault now d key random_salt random_nonce s disk =
      elim (encrypt_key x s.password key random_salt random_nonce) [
        | err e ↦ (s, disk, some (wrap_error e encryption_failed d "store_key"))
        | ok (sealed, salt) ↦
            (let q = put_key d (fresh_stored_key now d sealed salt) s in
              saved q (save_now j fault q disk))
      ]

module _ (x : Crypto) where
  unfoldable pub get_key : ℕ → String → FileKeyStore → FileKeyStore × Result Bytes
  unfolding decrypt_key
  get_key now d s = with_key d "get_key" s λ k. elim (decrypt_key x s.password k.key_data k.salt) [
    | err e ↦ (s, err (wrap_error e encryption_failed d "get_key"))
    | ok key ↦
        (put_key d (record k { access_count = suc k.access_count; last_access = now }) s, ok key)
  ]
