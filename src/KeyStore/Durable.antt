-- ===== src/KeyStore/Durable.antt =====
-- What is in the files after a save: a new store on them has what was saved.
use cat_tag.Common.{
  ℕ, ◌≡◌, refl, sym, subst, ap, ◌∙◌, false, [], none, some, String, length, Map, lookup, insert,
  delete, lookup-insert, Distinct, same, same_refl, inl, inr, arith,
}
use cat_tag.Errors.{Result-cases, ok}
use cat_tag.Protocol.Bytes.{Bytes}
use cat_tag.Encryption.{Crypto, Opens}
use cat_tag.KeyStore.{
  StoredKey, KeyStoreConfig, FileKeyStore, Disk, whole, Fault, no_fault, open_fault, write_fault,
  rename_fault, Codec, put_all, temp_file, write_file, save_to_file, load_from_file,
  new_file_key_store, save_now, put_key, encrypt_key, decrypt_key, fresh_stored_key, store_key,
  get_key,
}
use cat_tag.KeyStore.Saving.{lookup-put_all}
use cat_tag.KeyStore.RoundTrip.{encrypt_key-Encrypted, decrypt_key-Encrypted}

-- What was marshalled is read back, entry by entry, each once, whatever the order.
pub record ReadsBack (j : Codec) : Type 0 where
  pub unmarshal-marshal :
      (m : Map StoredKey) (content : Bytes)
      → j.marshal m ≡ ok content
      → (loaded : Map StoredKey) × (j.unmarshal content ≡ whole loaded)
        × Distinct loaded
        × ((d : String) → lookup d loaded ≡ lookup d m)

-- The configuration that a store was opened with.
abbrev pub config_of : FileKeyStore → KeyStoreConfig
config_of s = record {
  store_path = s.store_path;
  password = s.password;
  auto_save = s.auto_save;
  save_interval = 0;
}

-- A store that is saved, and what a new one on the files then has.
record Saved (j : Codec) (q : FileKeyStore) (after : Disk) : Type 0 where
  reopened : FileKeyStore
  opened : new_file_key_store j (config_of q) after ≡ ok reopened
  same_password : reopened.password ≡ q.password
  same_keys : (e : String) → lookup e reopened.keys ≡ lookup e q.keys

save_to_file-Saved :
    (j : Codec) (b : ReadsBack j) (fault : Fault) (q : FileKeyStore) (disk after : Disk)
    → save_to_file j fault q.store_path q disk ≡ (after, none)
    → Saved j q after
unfolding save_to_file write_file new_file_key_store load_from_file lookup
save_to_file-Saved j b (open_fault g) q disk after e = absurd (ground arith)
save_to_file-Saved j b (write_fault part g) q disk after e = absurd (ground arith)
save_to_file-Saved j b (rename_fault g) q disk after e = absurd (ground arith)
save_to_file-Saved j b no_fault q disk after e = elim (Result-cases (j.marshal q.keys)) [
  | inr (g, m) ↦ absurd (ground arith)
  | inl (content, m) ↦
      let (loaded, read, u, same_entries) = b.unmarshal-marshal q.keys content m in
      let written : insert q.store_path content (delete (temp_file q.store_path) disk) ≡ after =
        ground arith in
      let found : lookup q.store_path after ≡ some content =
        subst (λ a. lookup q.store_path a ≡ some content) written
          (ground (
            arith,
            lookup-insert q.store_path q.store_path content (delete (temp_file q.store_path) disk),
            same_refl q.store_path,
          )) in
      let empty : FileKeyStore = record {
        store_path = q.store_path;
        password = q.password;
        keys = [];
        auto_save = q.auto_save;
        is_stopped = false;
      } in
      record {
        reopened = record empty { keys = put_all loaded [] };
        opened = ground arith;
        same_password = refl;
        same_keys = λ d. ground (arith, lookup-put_all loaded [] d u, same_entries d);
      }
]

-- What a new store on the files has, after a key was stored.
pub record Recovered (x : Crypto) (j : Codec) (later : ℕ) (d : String) (key : Bytes)
    (s q : FileKeyStore) (after : Disk) : Type 0 where
  pub reopened : FileKeyStore
  pub opened : new_file_key_store j (config_of q) after ≡ ok reopened
  pub got : (get_key x later d reopened).1 ≡ ok key
  pub others : (e : String) → same d e ≡ false → lookup e reopened.keys ≡ lookup e s.keys

get_key-found :
    (x : Crypto) (later : ℕ) (d : String) (key : Bytes) (k : StoredKey) (r : FileKeyStore)
    → lookup d r.keys ≡ some k
    → decrypt_key x r.password k.key_data k.salt ≡ ok key
    → (get_key x later d r).1 ≡ ok key
unfolding get_key
get_key-found x later d key k r found e = ground arith

-- A key that was stored without an error, in a store that saves at once, is in the files: a new store
-- on them with the same password gives back this key, and has every other key that the old one had.
-- What is sealed is to open, what is marshalled is to be read back, and the nonce is to be as long
-- as asked for.
pub get_key-Recovered :
    (x : Crypto) (o : Opens x) (j : Codec) (b : ReadsBack j) (fault : Fault) (now later : ℕ)
    (d : String) (key salt nonce : Bytes) (s q : FileKeyStore) (disk after : Disk)
    → length nonce ≡ x.nonce_size
    → s.auto_save ≡ false
    → store_key x j fault now d key (ok salt) (ok nonce) s disk ≡ (q, after, none)
    → Recovered x j later d key s q after
unfolding store_key save_now fresh_stored_key
get_key-Recovered x o j b fault now later d key salt nonce s q disk after size at_once e =
    elim (Result-cases (encrypt_key x s.password key (ok salt) (ok nonce))) [
      | inr (g, r) ↦ absurd (ground arith)
      | inl ((sealed, used), r) ↦
          let w = encrypt_key-Encrypted x s.password key (ok salt) (ok nonce) sealed used r in
          let k = fresh_stored_key now d sealed used in
          let stored : put_key d k s ≡ q = ground arith in
          let done : save_to_file j fault q.store_path q disk ≡ (after, none) =
            subst (λ (t : FileKeyStore). save_to_file j fault t.store_path t disk ≡ (after, none))
              stored (ground arith) in
          let v = save_to_file-Saved j b fault q disk after done in
          let keyed : (c : String) → lookup c v.reopened.keys ≡ lookup c (insert d k s.keys) =
            λ c. v.same_keys c ∙ ap (λ (t : FileKeyStore). lookup c t.keys) (sym stored) in
          let password : v.reopened.password ≡ s.password =
            v.same_password ∙ ap (λ (t : FileKeyStore). t.password) (sym stored) in
          let nonce_length : length w.nonce ≡ x.nonce_size =
            (let drawn = w.random in
              let which : nonce ≡ w.nonce = ground arith in
              subst (λ n. length n ≡ x.nonce_size) which size) in
          record {
            reopened = v.reopened;
            opened = v.opened;
            got =
                get_key-found x later d key k v.reopened
                  (keyed d ∙ ground (arith, lookup-insert d d k s.keys, same_refl d))
                  (subst (λ p. decrypt_key x p sealed used ≡ ok key) (sym password)
                    (decrypt_key-Encrypted x o s.password key (ok nonce) sealed used w
                      nonce_length));
            others = λ c other. keyed c ∙ ground (arith, lookup-insert d c k s.keys);
          }
    ]
