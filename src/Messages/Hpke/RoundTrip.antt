-- ===== src/Messages/Hpke/RoundTrip.antt =====
-- The wire format of HPKE configurations, and that decoding is the inverse of encoding.
use daphne.Common.{
  ◌^◌, ◌<◌, ◌≡◌, ◌≢◌, refl, ap, List, [], ◌∷◌, flatten, length, map, All, arith, ==_ne,
}
use daphne.Codec.Base.{Bytes, pure}
use daphne.Codec.Prio.{Prio, PrioLaws, to_be_bytes}
use daphne.Codec.RoundTrip.{
  RoundTrips, RoundTrips-bind, RoundTrips-done, RoundTrips-uint, RoundTrips-items, RoundTrips-last,
  vector, IsItem,
}
use daphne.Codec.Lengths.RoundTrip.{RoundTrips-u16_bytes}
use daphne.Messages.Hpke.{
  HpkeKemId, HpkeKdfId, HpkeAeadId, HpkeConfig, HpkeConfigList, p256_hkdf_sha256,
  x25519_hkdf_sha256, hkdf_sha256, aes128_gcm, kem_id_code, kem_id_from, kdf_id_code, kdf_id_from,
  aead_id_code, aead_id_from, encode_kem_id, decode_kem_id, encode_kdf_id, decode_kdf_id,
  encode_aead_id, decode_aead_id, encode_hpke_config, decode_hpke_config, encode_hpke_config_list,
  decode_hpke_config_list, kem_id_p256_hkdf_sha256, kem_id_x25519_hkdf_sha256, kdf_id_hkdf_sha256,
  aead_id_aes128gcm,
}

-- A `u16`, and no code that has a constructor of its own.
abbrev pub IsKemId : HpkeKemId → Type 0
IsKemId (HpkeKemId.not_implemented x) =
    (x < 256 ^ 2) × (x ≢ kem_id_p256_hkdf_sha256) × (x ≢ kem_id_x25519_hkdf_sha256)
IsKemId _ = Unit

abbrev pub IsKdfId : HpkeKdfId → Type 0
IsKdfId (HpkeKdfId.not_implemented x) = (x < 256 ^ 2) × (x ≢ kdf_id_hkdf_sha256)
IsKdfId _ = Unit

abbrev pub IsAeadId : HpkeAeadId → Type 0
IsAeadId (HpkeAeadId.not_implemented x) = (x < 256 ^ 2) × (x ≢ aead_id_aes128gcm)
IsAeadId _ = Unit

pub record IsHpkeConfig (c : HpkeConfig) : Type 0 where
  pub id : c.id < 256 ^ 1
  pub kem_id : IsKemId c.kem_id
  pub kdf_id : IsKdfId c.kdf_id
  pub aead_id : IsAeadId c.aead_id
  pub public_key : length c.public_key < 256 ^ 2

abbrev pub hpke_config_wire : HpkeConfig → Bytes
hpke_config_wire c = flatten (
    to_be_bytes 1 c.id
    ∷ to_be_bytes 2 (kem_id_code c.kem_id)
    ∷ to_be_bytes 2 (kdf_id_code c.kdf_id)
    ∷ to_be_bytes 2 (aead_id_code c.aead_id)
    ∷ vector 2 c.public_key
    ∷ [])

abbrev pub hpke_config_list_wire : HpkeConfigList → Bytes
hpke_config_list_wire l = vector 2 (flatten (map hpke_config_wire l.hpke_configs))

pub record IsHpkeConfigList (l : HpkeConfigList) : Type 0 where
  pub hpke_configs : All IsHpkeConfig l.hpke_configs
  pub hpke_configs_fit : length (flatten (map hpke_config_wire l.hpke_configs)) < 256 ^ 2

kem_id_from-code :
    (id : HpkeKemId) → IsKemId id → (kem_id_from (kem_id_code id) ≡ id) × (kem_id_code id < 256 ^ 2)
unfolding kem_id_from kem_id_code
kem_id_from-code p256_hkdf_sha256 h = (refl, omega arith)
kem_id_from-code x25519_hkdf_sha256 h = (refl, omega arith)
kem_id_from-code (HpkeKemId.not_implemented x) (u16, p256, x25519) =
    (rw (==_ne x _ p256, ==_ne x _ x25519), u16)

kdf_id_from-code :
    (id : HpkeKdfId) → IsKdfId id → (kdf_id_from (kdf_id_code id) ≡ id) × (kdf_id_code id < 256 ^ 2)
unfolding kdf_id_from kdf_id_code
kdf_id_from-code hkdf_sha256 h = (refl, omega arith)
kdf_id_from-code (HpkeKdfId.not_implemented x) (u16, other) = (rw (==_ne x _ other), u16)

aead_id_from-code :
    (id : HpkeAeadId)
    → IsAeadId id
    → (aead_id_from (aead_id_code id) ≡ id) × (aead_id_code id < 256 ^ 2)
unfolding aead_id_from aead_id_code
aead_id_from-code aes128_gcm h = (refl, omega arith)
aead_id_from-code (HpkeAeadId.not_implemented x) (u16, other) = (rw (==_ne x _ other), u16)

module _ {p : Prio} (laws : PrioLaws p) where
  RoundTrips-kem_id :
      (id : HpkeKemId)
      → IsKemId id
      → RoundTrips (encode_kem_id p id) (decode_kem_id p) id (to_be_bytes 2 (kem_id_code id))
  unfolding encode_kem_id decode_kem_id
  RoundTrips-kem_id id h =
      let (back, u16) = kem_id_from-code id h in
      RoundTrips-last _ id (RoundTrips-uint laws 2 (kem_id_code id) u16) (ap pure back)

  RoundTrips-kdf_id :
      (id : HpkeKdfId)
      → IsKdfId id
      → RoundTrips (encode_kdf_id p id) (decode_kdf_id p) id (to_be_bytes 2 (kdf_id_code id))
  unfolding encode_kdf_id decode_kdf_id
  RoundTrips-kdf_id id h =
      let (back, u16) = kdf_id_from-code id h in
      RoundTrips-last _ id (RoundTrips-uint laws 2 (kdf_id_code id) u16) (ap pure back)

  RoundTrips-aead_id :
      (id : HpkeAeadId)
      → IsAeadId id
      → RoundTrips (encode_aead_id p id) (decode_aead_id p) id (to_be_bytes 2 (aead_id_code id))
  unfolding encode_aead_id decode_aead_id
  RoundTrips-aead_id id h =
      let (back, u16) = aead_id_from-code id h in
      RoundTrips-last _ id (RoundTrips-uint laws 2 (aead_id_code id) u16) (ap pure back)

  pub RoundTrips-hpke_config :
      (c : HpkeConfig)
      → IsHpkeConfig c
      → RoundTrips (encode_hpke_config p c) (decode_hpke_config p) c (hpke_config_wire c)
  unfolding encode_hpke_config decode_hpke_config
  RoundTrips-hpke_config c h = RoundTrips-bind _ (RoundTrips-uint laws 1 c.id h.id) (
      RoundTrips-bind _ (RoundTrips-kem_id c.kem_id h.kem_id) (
        RoundTrips-bind _ (RoundTrips-kdf_id c.kdf_id h.kdf_id) (
          RoundTrips-bind _ (RoundTrips-aead_id c.aead_id h.aead_id) (
            RoundTrips-bind _ (RoundTrips-u16_bytes laws c.public_key h.public_key)
              RoundTrips-done))))

  hpke_config_items :
      (xs : List HpkeConfig)
      → All IsHpkeConfig xs
      → All (IsItem (encode_hpke_config p) (decode_hpke_config p) hpke_config_wire) xs
  hpke_config_items [] h = tt
  hpke_config_items (x ∷ xs) h =
      ((RoundTrips-hpke_config x h.0, omega arith), hpke_config_items xs h.1)

  -- For every codec with the laws of `PrioLaws` and every list of HPKE configurations whose
  -- identifiers and keys fit their fields, an unknown identifier not being the code of a known one
  -- (`IsHpkeConfigList`): the encoder appends exactly the bytes of its wire format to what was
  -- written before, and the decoder, wherever those bytes stand in a buffer of less than 2^63
  -- bytes and whatever follows them, returns the value and stops behind them.
  pub RoundTrips-hpke_config_list :
      (l : HpkeConfigList)
      → IsHpkeConfigList l
      → RoundTrips
          (encode_hpke_config_list p l)
          (decode_hpke_config_list p)
          l
          (vector 2 (flatten (map hpke_config_wire l.hpke_configs)))
  unfolding encode_hpke_config_list decode_hpke_config_list
  RoundTrips-hpke_config_list l h =
      RoundTrips-last _ l
        (RoundTrips-items laws 2 (encode_hpke_config p) (decode_hpke_config p) hpke_config_wire
          l.hpke_configs (hpke_config_items l.hpke_configs h.hpke_configs) h.hpke_configs_fit)
        refl
