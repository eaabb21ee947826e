-- ===== src/KeyStore/RoundTrip.antt =====
-- What is stored is got back.
use cat_tag.Common.{
  ◌≡◌, refl, sym, subst, false, ◌++◌, none, ltb, String, length, length-append, take, drop,
  take-length_append, drop-length_append, arith,
}
use cat_tag.Errors.{Result, ok, err}
use cat_tag.Protocol.Bytes.{Bytes}
use cat_tag.Encryption.{Crypto, Opens}
use cat_tag.KeyStore.{derive_key, make_cipher, encrypt_key, decrypt_key}

module _ (x : Crypto) where
  make_cipher-ok :
      (key : Bytes) (u : Unit {0})
      → make_cipher x key ≡ ok u
      → (x.new_cipher key ≡ none) × (x.new_gcm key ≡ none)
  unfolding make_cipher
  make_cipher-ok key u e = (ground arith, ground arith)

  -- What a successful encryption of a key went through.
  pub record Encrypted (password : String) (key : Bytes) (random_nonce : Result Bytes)
      (sealed salt : Bytes) : Type 0 where
    pub nonce : Bytes
    pub random : random_nonce ≡ ok nonce
    pub cipher_ok : x.new_cipher (derive_key x password salt) ≡ none
    pub gcm_ok : x.new_gcm (derive_key x password salt) ≡ none
    pub made : sealed ≡ nonce ++ x.seal (derive_key x password salt) nonce key

  pub encrypt_key-Encrypted :
      (password : String) (key : Bytes) (random_salt random_nonce : Result Bytes)
      (sealed salt : Bytes)
      → encrypt_key x password key random_salt random_nonce ≡ ok (sealed, salt)
      → Encrypted password key random_nonce sealed salt
  unfolding encrypt_key make_cipher
  encrypt_key-Encrypted password key (err g) random_nonce sealed salt e = absurd (ground arith)
  encrypt_key-Encrypted password key (ok s) (err g) sealed salt e = absurd (ground arith)
  encrypt_key-Encrypted password key (ok s) (ok n) sealed salt e =
      let same_salt : s ≡ salt = ground arith in
      record {
        nonce = n;
        random = refl;
        cipher_ok =
            subst (λ b. x.new_cipher (derive_key x password b) ≡ none) same_salt (ground arith);
        gcm_ok = subst (λ b. x.new_gcm (derive_key x password b) ≡ none) same_salt (ground arith);
        made =
            subst (λ b. sealed ≡ n ++ x.seal (derive_key x password b) n key) same_salt
              (ground arith);
      }

  pub decrypt_key-Encrypted :
      (o : Opens x) (password : String) (key : Bytes) (random_nonce : Result Bytes)
      (sealed salt : Bytes)
      → (w : Encrypted password key random_nonce sealed salt) → length w.nonce ≡ x.nonce_size
      → decrypt_key x password sealed salt ≡ ok key
  unfolding decrypt_key make_cipher
  decrypt_key-Encrypted o password key random_nonce sealed salt w size =
      let k = derive_key x password salt in
      let body = x.seal k w.nonce key in
      let long = length-append w.nonce body in
      let front : take x.nonce_size sealed ≡ w.nonce =
        subst (λ b. take x.nonce_size b ≡ w.nonce) (sym w.made)
          (subst (λ n. take n (w.nonce ++ body) ≡ w.nonce) size
            (take-length_append w.nonce body)) in
      let back : drop x.nonce_size sealed ≡ body =
        subst (λ b. drop x.nonce_size b ≡ body) (sym w.made)
          (subst (λ n. drop n (w.nonce ++ body) ≡ body) size (drop-length_append w.nonce body)) in
      let enough : ltb (length sealed) x.nonce_size ≡ false =
        subst (λ b. ltb (length b) x.nonce_size ≡ false) (sym w.made) (ground arith) in
      rw (w.cipher_ok, w.gcm_ok, enough, front, back) (o.open-seal k w.nonce key)
