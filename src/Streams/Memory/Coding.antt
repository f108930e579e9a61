-- ===== src/Streams/Memory/Coding.antt =====
-- A codec whose archives are lists of texts.
use clickhouse_backup.Base.{
  ℕ, zero, suc, Text, codes, ◌≡◌, refl, ap, ◌∙◌, none, List, [], ◌∷◌, ◌++◌, map, Result, ok, err,
  not_exist,
}
use clickhouse_backup.Streams.{Codec, Entry, MetaFile}
use clickhouse_backup.Streams.Roundtrip.{CodecLaws}

-- Texts one after the other: each byte is written as its successor, and a text ends with 0.
abbrev write_text : Text → Text
write_text t = map (λ c. suc c) t ++ (0 ∷ [])

abbrev write_texts : List Text → Text
write_texts [] = []
write_texts (t ∷ ts) = write_text t ++ write_texts ts

abbrev add_byte : ℕ → List Text → List Text
add_byte c [] = (c ∷ []) ∷ []
add_byte c (t ∷ ts) = (c ∷ t) ∷ ts

abbrev read_texts : Text → List Text
read_texts [] = []
read_texts (zero ∷ s) = [] ∷ read_texts s
read_texts (suc c ∷ s) = add_byte c (read_texts s)

read_texts-write_text : (t s : Text) → read_texts (write_text t ++ s) ≡ t ∷ read_texts s
read_texts-write_text [] s = refl
read_texts-write_text (c ∷ t) s = rw (read_texts-write_text t s) refl

read_texts-write_texts : (ts : List Text) → read_texts (write_texts ts) ≡ ts
read_texts-write_texts [] = refl
read_texts-write_texts (t ∷ ts) =
    read_texts-write_text t (write_texts ts) ∙ ap (λ l. t ∷ l) (read_texts-write_texts ts)

abbrev texts_of : List Entry → List Text
texts_of [] = []
texts_of ((name, content) ∷ entries) = name ∷ content ∷ texts_of entries

abbrev entries_of : List Text → List Entry
entries_of [] = []
entries_of (name ∷ []) = []
entries_of (name ∷ content ∷ ts) = (name, content) ∷ entries_of ts

entries_of-texts_of : (entries : List Entry) → entries_of (texts_of entries) ≡ entries
entries_of-texts_of [] = refl
entries_of-texts_of ((name, content) ∷ entries) =
    ap (λ l. (name, content) ∷ l) (entries_of-texts_of entries)

abbrev meta_of_texts : List Text → Result MetaFile
meta_of_texts [] = err (not_exist (codes "unexpected end of JSON input"))
meta_of_texts (required ∷ links) = ok (record { required_backup = required; hardlinks = links })

abbrev pub memory_codec : Codec
memory_codec = record {
  create_error = λ z. none;
  write_error = λ z e. none;
  encode = λ z entries. write_texts (texts_of entries);
  decode = λ kind s. (entries_of (read_texts s), none);
  encode_meta = λ meta. write_texts (meta.required_backup ∷ meta.hardlinks);
  decode_meta = λ s meta. meta_of_texts (read_texts s);
}

pub memory_codec-CodecLaws : CodecLaws memory_codec
memory_codec-CodecLaws = record {
  create_error-none = λ z. refl;
  decode-encode = λ format level z kind entries writer reader.
      ap (λ l. (entries_of l, none)) (read_texts-write_texts (texts_of entries))
      ∙ ap (λ l. (l, none)) (entries_of-texts_of entries);
}
