-- ===== src/Examples/KeyStore.antt =====
-- A key store over an empty disk, whose JSON is one fixed file.
use cat_tag.Common.{
  ◌==◌, ◌≡◌, refl, sym, ap, Bool, true, false, ◌&&◌, if◌then◌else◌, length, Map, Distinct, if_elim,
  zero, suc, subst, same_iff, [], ◌∷◌, none, lookup, insert, delete, String, same, arith,
}
use cat_tag.Errors.{Result, ok, err, foreign}
use cat_tag.Protocol.Bytes.{Bytes}
use cat_tag.Encryption.{bytes_equal}
use cat_tag.Encryption.RoundTrip.{bytes_equal_sound}
use cat_tag.KeyStore.{
  StoredKey, FileKeyStore, Decoded, whole, null, broken_off, no_fault, write_fault, Codec,
  fresh_stored_key, put_key, save_to_file, restore, store_key, save_now, write_file, encrypt_key,
  make_cipher,
}
use cat_tag.KeyStore.Saving.{Atomic, save_to_file-Atomic, ReadsOnce, Restored, restore-Restored}
use cat_tag.KeyStore.Durable.{ReadsBack, Recovered, get_key-Recovered}
use cat_tag.Examples.Encryption.{plain_crypto, plain_crypto-Opens}

abbrev ours : FileKeyStore
ours = record {
  store_path = "keys";
  password = "secret";
  keys = [];
  auto_save = false;
  is_stopped = false;
}

abbrev entry : StoredKey
entry = fresh_stored_key 5 "d" (4 ∷ 4 ∷ 7 ∷ 8 ∷ []) (1 ∷ [])

no_entries : (m : Map String) → (length m == 0) ≡ true → m ≡ []
no_entries [] e = refl
no_entries (x ∷ m) e = absurd (ground arith)

-- The entry is what the codec knows.
abbrev is_entry : String → StoredKey → Bool
is_entry d k =
    same d "d"
    && (same k.device_id "d"
        && (bytes_equal k.key_data entry.key_data
            && (bytes_equal k.salt entry.salt
                && (k.created_at == 5
                    && (k.updated_at == 5
                        && (k.access_count == 0
                            && (k.last_access == 5 && length k.metadata == 0)))))))

is_entry_sound : (d : String) (k : StoredKey) → is_entry d k ≡ true → (d ≡ "d") × (k ≡ entry)
unfolding fresh_stored_key
is_entry_sound d k e =
    let a : k.device_id ≡ "d" = (same_iff k.device_id "d").0 (ground arith) in
    let b : k.key_data ≡ entry.key_data =
      bytes_equal_sound k.key_data entry.key_data (ground arith) in
    let c : k.salt ≡ entry.salt = bytes_equal_sound k.salt entry.salt (ground arith) in
    let t : k.created_at ≡ 5 = ground arith in
    let u : k.updated_at ≡ 5 = ground arith in
    let v : k.access_count ≡ 0 = ground arith in
    let w : k.last_access ≡ 5 = ground arith in
    let n : k.metadata ≡ [] = no_entries k.metadata (ground arith) in
    (
      (same_iff d "d").0 (ground arith),
      λ i. record {
        device_id = a i;
        key_data = b i;
        salt = c i;
        created_at = t i;
        updated_at = u i;
        access_count = v i;
        last_access = w i;
        metadata = n i;
      },
    )

-- It writes a store that has this entry alone.
abbrev write_entry : Map StoredKey → Result Bytes
write_entry [] = err (foreign "other")
write_entry ((d, k) ∷ []) = if is_entry d k then ok (1 ∷ []) else err (foreign "other")
write_entry (e ∷ f ∷ rest) = err (foreign "other")

-- Two files are read: the entry, and one that breaks off after it.
abbrev read_entry : Bytes → Decoded
read_entry (suc zero ∷ []) = whole (("d", entry) ∷ [])
read_entry (suc (suc zero) ∷ bytes) = broken_off (("d", entry) ∷ []) (foreign "type")
read_entry _ = broken_off [] (foreign "syntax")

abbrev codec : Codec
codec = record { marshal = write_entry; unmarshal = read_entry }

reads_entry :
    (m : Map StoredKey) (content : Bytes) → write_entry m ≡ ok content → m ≡ ("d", entry) ∷ []
reads_entry [] content e = absurd (ground arith)
reads_entry ((d, k) ∷ []) content e =
    let (same_name, same_key) = is_entry_sound d k (ground arith) in
    λ i. (same_name i, same_key i) ∷ []
reads_entry (a ∷ b ∷ rest) content e = absurd (ground arith)

writes_one : (m : Map StoredKey) (content : Bytes) → write_entry m ≡ ok content → content ≡ 1 ∷ []
writes_one [] content e = absurd (ground arith)
writes_one ((d, k) ∷ []) content e =
    if_elim {A = Result Bytes} (λ r. r ≡ ok content → content ≡ 1 ∷ []) (is_entry d k)
      (λ _ f. ground arith) (λ _ f. absurd (ground arith)) e
writes_one (a ∷ b ∷ rest) content e = absurd (ground arith)

codec-ReadsBack : ReadsBack codec
unfolding lookup
codec-ReadsBack = record {
  unmarshal-marshal = λ m content e. (
    ("d", entry) ∷ [],
    ap read_entry (writes_one m content e),
    (refl, tt),
    λ d. ap (lookup d) (sym (reads_entry m content e)),
  );
}

get_key-Recovered_example :
    Recovered plain_crypto codec 9 "d"
      (7 ∷ 8 ∷ [])
      ours
      (put_key "d" entry ours)
      (("keys", 1 ∷ []) ∷ [])
unfolding store_key save_now save_to_file write_file encrypt_key make_cipher bytes_equal insert
    delete fresh_stored_key
get_key-Recovered_example =
    get_key-Recovered plain_crypto plain_crypto-Opens codec codec-ReadsBack no_fault 5 9 "d"
      (7 ∷ 8 ∷ []) (1 ∷ []) (4 ∷ 4 ∷ []) ours (put_key "d" entry ours) [] (("keys", 1 ∷ []) ∷ [])
      refl refl refl

abbrev entries : Decoded → Map StoredKey
entries (whole loaded) = loaded
entries null = []
entries (broken_off loaded e) = loaded

read_entry-Distinct : (content : Bytes) → Distinct (entries (read_entry content))
unfolding lookup
read_entry-Distinct [] = tt
read_entry-Distinct (zero ∷ bytes) = tt
read_entry-Distinct (suc zero ∷ []) = (refl, tt)
read_entry-Distinct (suc zero ∷ b ∷ bytes) = tt
read_entry-Distinct (suc (suc zero) ∷ bytes) = (refl, tt)
read_entry-Distinct (suc (suc (suc n)) ∷ bytes) = tt

codec-ReadsOnce : ReadsOnce codec
codec-ReadsOnce = record {
  once_whole = λ content loaded e. subst Distinct (ap entries e) (read_entry-Distinct content);
  once_broken_off =
      λ content loaded g e. subst Distinct (ap entries e) (read_entry-Distinct content);
}

-- The write breaks off after nothing.
save_to_file-Atomic_example :
    let w =
      save_to_file codec
        (write_fault [] (foreign "full"))
        "keys"
        (put_key "d" entry ours)
        (("keys", 3 ∷ []) ∷ []) in
    Atomic codec "keys" (put_key "d" entry ours).keys (("keys", 3 ∷ []) ∷ []) w.0 w.1
    × (lookup "other" w.0 ≡ none)
unfolding lookup
save_to_file-Atomic_example =
    save_to_file-Atomic codec (write_fault [] (foreign "full")) "keys" (put_key "d" entry ours)
      (("keys", 3 ∷ []) ∷ []) "other" refl refl

-- A key that was stored after the backup, and a backup that breaks off.
restore-Restored_example :
    let s = put_key "later" entry ours in
    let r = restore codec "copy" s (("copy", 2 ∷ []) ∷ []) in
    Restored codec "copy" s (("copy", 2 ∷ []) ∷ []) "later" r.0 r.1
restore-Restored_example =
    restore-Restored codec codec-ReadsOnce "copy" (put_key "later" entry ours)
      (("copy", 2 ∷ []) ∷ []) "later"
