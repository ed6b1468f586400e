-- ===== src/Revision/Content.antt =====
-- internal/revision/sources.go: `ContentDigest`, the digest of a ConfigMap's or a Secret's data.
--
-- A map is the list of its entries, in the order in which Go ranges over it. A Secret has binary entries
-- only. The bytes of a text (utf8) and SHA-256, with its text in hex, are parameters.
pub mod Bytes
use mathlib.Core.List.{Permᴰ, Mem}
use mathlib.Core.Option
use assayd.Base.{ℕ, ◌≡◌, Option, List, [], ◌∷◌, ◌++◌, String, length}
use assayd.Base.Sort.{sort_by}
use assayd.Suite.{decimal_from}
use assayd.Revision.{SourceRef}

pub record Datum : Type 0 where
  pub key : String
  pub value : String

pub record BinaryDatum : Type 0 where
  pub key : String
  pub value : List ℕ

pub record Content : Type 0 where
  pub data_entries : List Datum
  pub binary_entries : List BinaryDatum

-- `%d:%s` of a text's length and the text, before what is written next.
unfoldable pub write_counted : List ℕ → List ℕ → List ℕ
unfolding decimal_from
write_counted bytes next = decimal_from (length bytes) (length bytes) ++ (b':' ∷ (bytes ++ next))

abbrev pub data_tag : List ℕ
data_tag = b'd' ∷ b'a' ∷ b't' ∷ b'a' ∷ b':' ∷ []

abbrev pub binary_tag : List ℕ
binary_tag = b'b' ∷ b'i' ∷ b'n' ∷ b'a' ∷ b'r' ∷ b'y' ∷ b'D' ∷ b'a' ∷ b't' ∷ b'a' ∷ b':' ∷ []

module _ (utf8 : String → List ℕ) where
  -- The loop over the keys of `data`, before what is written next.
  unfoldable pub write_data : List Datum → List ℕ → List ℕ
  unfolding write_counted
  write_data [] next = next
  write_data (d ∷ ds) next =
      data_tag
      ++ write_counted (utf8 d.key)
          (b'=' ∷ write_counted (utf8 d.value) (b'\n' ∷ write_data ds next))

  -- The loop over the keys of `binaryData`.
  unfoldable pub write_binary : List BinaryDatum → List ℕ
  unfolding write_counted
  write_binary [] = []
  write_binary (d ∷ ds) =
      binary_tag
      ++ write_counted (utf8 d.key) (b'=' ∷ write_counted d.value (b'\n' ∷ write_binary ds))

  -- `ContentDigest`
  unfoldable pub content_digest : (List ℕ → String) → Content → String
  unfolding write_data write_binary
  content_digest sha256_hex c = sha256_hex (
      write_data (sort_by (λ (d : Datum). d.key) c.data_entries)
        (write_binary (sort_by (λ (d : BinaryDatum). d.key) c.binary_entries)))

  -- `resolveEnvSourcesFrom`: the digest of each source that is there to read
  abbrev pub resolve : (List ℕ → String) → (SourceRef → Option Content) → SourceRef → Option String
  resolve sha256_hex contents r = Option.map (content_digest sha256_hex) (contents r)

-- A key has one value.
pub record HasUniqueKeys (c : Content) : Type 0 where
  pub data_entry :
      (d e : Datum) → Mem d c.data_entries → Mem e c.data_entries → d.key ≡ e.key → d ≡ e
  pub binary_entry :
      (d e : BinaryDatum) → Mem d c.binary_entries → Mem e c.binary_entries → d.key ≡ e.key → d ≡ e

-- Two contents with the same entries in both maps.
pub record SameContent (c d : Content) : Type 0 where
  pub data_entries : Permᴰ c.data_entries d.data_entries
  pub binary_entries : Permᴰ c.binary_entries d.binary_entries

-- What is assumed of the bytes of a text and of the hash: no two texts have the same bytes, and no two byte
-- sequences the same hash.
pub record IsFaithfulHash (utf8 : String → List ℕ) (sha256_hex : List ℕ → String) : Type 0 where
  pub utf8_injective : (s t : String) → utf8 s ≡ utf8 t → s ≡ t
  pub no_collision : (a b : List ℕ) → sha256_hex a ≡ sha256_hex b → a ≡ b
