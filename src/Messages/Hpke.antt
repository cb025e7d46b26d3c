-- ===== src/Messages/Hpke.antt =====
-- HPKE configurations (crates/daphne/src/messages/mod.rs and crates/daphne/src/hpke.rs).
pub mod RoundTrip
use daphne.Common.{ℕ, List, ◌==◌, if◌then◌else◌}
use daphne.Codec.Base.{Bytes, Writer, Reader, ◌>>◌, done, ◌>>=◌, pure}
use daphne.Codec.Prio.{Prio}
use daphne.Codec.Lengths.{encode_u16_bytes, decode_u16_bytes}

abbrev pub kem_id_x25519_hkdf_sha256 : ℕ
kem_id_x25519_hkdf_sha256 = 0x0020

abbrev pub kem_id_p256_hkdf_sha256 : ℕ
kem_id_p256_hkdf_sha256 = 0x0010

abbrev pub kdf_id_hkdf_sha256 : ℕ
kdf_id_hkdf_sha256 = 0x0001

abbrev pub aead_id_aes128gcm : ℕ
aead_id_aes128gcm = 0x0001

pub data HpkeKemId : Type 0 where
  p256_hkdf_sha256 x25519_hkdf_sha256 : HpkeKemId
  not_implemented : ℕ → HpkeKemId

pub data HpkeKdfId : Type 0 where
  hkdf_sha256 : HpkeKdfId
  not_implemented : ℕ → HpkeKdfId

pub data HpkeAeadId : Type 0 where
  aes128_gcm : HpkeAeadId
  not_implemented : ℕ → HpkeAeadId

unfoldable pub kem_id_code : HpkeKemId → ℕ
kem_id_code p256_hkdf_sha256 = kem_id_p256_hkdf_sha256
kem_id_code x25519_hkdf_sha256 = kem_id_x25519_hkdf_sha256
kem_id_code (HpkeKemId.not_implemented x) = x

unfoldable pub kem_id_from : ℕ → HpkeKemId
kem_id_from value =
    if value == kem_id_p256_hkdf_sha256
    then p256_hkdf_sha256
    else if value == kem_id_x25519_hkdf_sha256
    then x25519_hkdf_sha256
    else HpkeKemId.not_implemented value

unfoldable pub kdf_id_code : HpkeKdfId → ℕ
kdf_id_code hkdf_sha256 = kdf_id_hkdf_sha256
kdf_id_code (HpkeKdfId.not_implemented x) = x

unfoldable pub kdf_id_from : ℕ → HpkeKdfId
kdf_id_from value =
    if value == kdf_id_hkdf_sha256 then hkdf_sha256 else HpkeKdfId.not_implemented value

unfoldable pub aead_id_code : HpkeAeadId → ℕ
aead_id_code aes128_gcm = aead_id_aes128gcm
aead_id_code (HpkeAeadId.not_implemented x) = x

unfoldable pub aead_id_from : ℕ → HpkeAeadId
aead_id_from value =
    if value == aead_id_aes128gcm then aes128_gcm else HpkeAeadId.not_implemented value

-- `HpkePublicKey` is a wrapper of its bytes.
pub record HpkeConfig : Type 0 where
  pub id : ℕ
  pub kem_id : HpkeKemId
  pub kdf_id : HpkeKdfId
  pub aead_id : HpkeAeadId
  pub public_key : Bytes

pub record HpkeConfigList : Type 0 where
  pub hpke_configs : List HpkeConfig

module _ (p : Prio) where
  unfoldable pub encode_kem_id : HpkeKemId → Writer
  encode_kem_id id = p.encode_uint 2 (kem_id_code id)

  unfoldable pub decode_kem_id : Reader HpkeKemId
  decode_kem_id = do value ← p.decode_uint 2; pure (kem_id_from value)

  unfoldable pub encode_kdf_id : HpkeKdfId → Writer
  encode_kdf_id id = p.encode_uint 2 (kdf_id_code id)

  unfoldable pub decode_kdf_id : Reader HpkeKdfId
  decode_kdf_id = do value ← p.decode_uint 2; pure (kdf_id_from value)

  unfoldable pub encode_aead_id : HpkeAeadId → Writer
  encode_aead_id id = p.encode_uint 2 (aead_id_code id)

  unfoldable pub decode_aead_id : Reader HpkeAeadId
  decode_aead_id = do value ← p.decode_uint 2; pure (aead_id_from value)

  unfoldable pub encode_hpke_config : HpkeConfig → Writer
  encode_hpke_config c = do
    p.encode_uint 1 c.id
    encode_kem_id c.kem_id
    encode_kdf_id c.kdf_id
    encode_aead_id c.aead_id
    encode_u16_bytes p c.public_key
    done

  unfoldable pub decode_hpke_config : Reader HpkeConfig
  decode_hpke_config = do
    id ← p.decode_uint 1
    kem_id ← decode_kem_id
    kdf_id ← decode_kdf_id
    aead_id ← decode_aead_id
    public_key ← decode_u16_bytes p
    pure (record {
      id = id;
      kem_id = kem_id;
      kdf_id = kdf_id;
      aead_id = aead_id;
      public_key = public_key;
    })

  unfoldable pub encode_hpke_config_list : HpkeConfigList → Writer
  encode_hpke_config_list l = p.encode_items HpkeConfig 2 encode_hpke_config l.hpke_configs

  unfoldable pub decode_hpke_config_list : Reader HpkeConfigList
  decode_hpke_config_list = do
    hpke_configs ← p.decode_items HpkeConfig 2 decode_hpke_config
    pure (record { hpke_configs = hpke_configs })
