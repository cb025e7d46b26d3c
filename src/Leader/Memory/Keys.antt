-- ===== src/Leader/Memory/Keys.antt =====
-- The keys of the Leader's maps: their derived `PartialEq`.
use daphne.Common.{MapKey}
use daphne.Codec.Base.{Bytes}
use daphne.Task.{DapBatchBucket}
use daphne.Span.{bytes_eq, bucket_eq}
use daphne.Span.Buckets.{bytes_eq_sound, bytes_eq_refl, bucket_eq_sound, bucket_eq_refl}

instance abbrev pub bytes_key : MapKey Bytes
bytes_key = record { key_eq = bytes_eq; key_eq_sound = bytes_eq_sound; key_eq_refl = bytes_eq_refl }

instance abbrev pub bucket_key : MapKey DapBatchBucket
bucket_key = record {
  key_eq = bucket_eq;
  key_eq_sound = bucket_eq_sound;
  key_eq_refl = bucket_eq_refl;
}
