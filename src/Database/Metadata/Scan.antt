-- ===== src/Database/Metadata/Scan.antt =====
-- Reading the metadata of a context: what the loop over the documents collects.
use microservice_common.Base.{
  ℕ, ◌≡◌, refl, ap, sym, ◌∙◌, Bool, true, false, not, ◌&&◌, List, [], ◌∷◌, ◌++◌, map, filter, any,
  is_empty, ltb, ◌==◌, if◌then◌else◌, arith, Bool-cases, inl, inr, All, append_assoc, append_nil,
}
use microservice_common.Base.Words.{to_uint32}
use microservice_common.Common.Outcome.{Outcome, returned, aborted, undefined, ◌>>=◌}
use microservice_common.Common.Persistence.{
  EPersistenceSourceType, EPersistenceDataType, autonomous_recorder, video_server, dss,
  undefined_source, undefined_data, PersistenceMetadata, PersistenceMetadataRaw, new_metadata,
  convert_persistence_type_from_str, convert_data_type_from_str,
}
use microservice_common.Mongo.Document.{Document}
use microservice_common.Mongo.Driver.{Driver}
use microservice_common.Database.Metadata.{add_raw, store_raw, grow_at, read_raw, read_contexts}

-- The metadata of all contexts together.
abbrev pub raw_sets : List PersistenceMetadata → List PersistenceMetadataRaw
raw_sets [] = []
raw_sets (g ∷ gs) = g.persistence_from_raw ++ raw_sets gs

abbrev pub IsOnlyRaw : PersistenceMetadata → Type 0
IsOnlyRaw g = (g.persistence_from_video ≡ []) × (g.persistence_from_dss ≡ [])

abbrev pub is_returned {ℓ} : {A : Type ℓ} → Outcome A → Bool
is_returned (returned a) = true
is_returned aborted = false
is_returned undefined = false

abbrev pub is_recorder : Outcome EPersistenceSourceType → Bool
is_recorder (returned autonomous_recorder) = true
is_recorder _ = false

abbrev pub value_or {ℓ} : {A : Type ℓ} → A → Outcome A → A
value_or a (returned b) = b
value_or a aborted = a
value_or a undefined = a

-- The loop so far: the sets are those expected, and nothing else is there.
record Collected (expected : List PersistenceMetadataRaw) (out : List PersistenceMetadata)
    : Type 0 where
  raws : raw_sets out ≡ expected
  only_raw : All IsOnlyRaw out
  filled : is_empty out ≡ false

add_raw-Collected :
    (r : PersistenceMetadataRaw) (g : PersistenceMetadata) (gs : List PersistenceMetadata)
    → All IsOnlyRaw (g ∷ gs)
    → (out2 : List PersistenceMetadata) × (add_raw r (g ∷ gs) ≡ returned out2)
      × Collected (raw_sets (g ∷ gs) ++ r ∷ []) out2
add_raw-Collected r g [] h = (
  record g { persistence_from_raw = g.persistence_from_raw ++ r ∷ [] } ∷ [],
  refl,
  record {
    raws = append_nil _ ∙ ap (λ xs. xs ++ r ∷ []) (sym (append_nil g.persistence_from_raw));
    only_raw = (h.0, tt);
    filled = refl;
  },
)
add_raw-Collected r g (k ∷ gs) h =
    let (out2, e, c) = add_raw-Collected r k gs h.1 in
    (
      g ∷ out2,
      ap (λ o. o >>= λ rest. returned (g ∷ rest)) e,
      record {
        raws =
            ap (λ xs. g.persistence_from_raw ++ xs) c.raws
            ∙ sym (append_assoc g.persistence_from_raw (raw_sets (k ∷ gs)) (r ∷ []));
        only_raw = (h.0, c.only_raw);
        filled = refl;
      },
    )

same_sets :
    (g : PersistenceMetadata) (gs : List PersistenceMetadata)
    → All IsOnlyRaw (g ∷ gs)
    → Collected (raw_sets (g ∷ gs) ++ []) (g ∷ gs)
same_sets g gs h = record { raws = sym (append_nil _); only_raw = h; filled = refl }

raw_sets_new : (gs : List PersistenceMetadata) → raw_sets (gs ++ new_metadata ∷ []) ≡ raw_sets gs
raw_sets_new [] = refl
raw_sets_new (g ∷ gs) = ap (λ xs. g.persistence_from_raw ++ xs) (raw_sets_new gs)

IsOnlyRaw-new_metadata :
    (gs : List PersistenceMetadata) → All IsOnlyRaw gs → All IsOnlyRaw (gs ++ new_metadata ∷ [])
IsOnlyRaw-new_metadata [] h = ((refl, refl), tt)
IsOnlyRaw-new_metadata (g ∷ gs) h = (h.0, IsOnlyRaw-new_metadata gs h.1)

-- The entry that a document's set goes to.
grown :
    (ctx current : ℕ) (out : List PersistenceMetadata)
    → ltb 0 ctx ≡ true
    → All IsOnlyRaw out
    → (is_empty out ≡ true → current ≡ 0)
    → (g : PersistenceMetadata) × (gs : List PersistenceMetadata) × (grow_at ctx current out
        ≡ g ∷ gs)
      × (raw_sets (g ∷ gs) ≡ raw_sets out)
      × All IsOnlyRaw (g ∷ gs)
grown ctx current [] positive h start =
    let e : (ctx == current) ≡ false = ground (arith, start refl) in
    (new_metadata, [], ap (λ b. if b then [] else new_metadata ∷ []) e, refl, ((refl, refl), tt))
grown ctx current (g ∷ gs) positive h start = elim (Bool-cases (ctx == current)) [
  | inl e ↦ (g, gs, ap (λ b. if b then g ∷ gs else g ∷ gs ++ new_metadata ∷ []) e, refl, h)
  | inr e ↦ (
    g,
    gs ++ new_metadata ∷ [],
    ap (λ b. if b then g ∷ gs else g ∷ gs ++ new_metadata ∷ []) e,
    raw_sets_new (g ∷ gs),
    (h.0, IsOnlyRaw-new_metadata gs h.1),
  )
]

module _ (m : Driver) where
  abbrev pub source_of : Document → Outcome EPersistenceSourceType
  source_of d = convert_persistence_type_from_str (m.read_utf8 "source_type" d)

  abbrev pub kind_of : Document → Outcome EPersistenceDataType
  kind_of d = convert_data_type_from_str (m.read_utf8 "data_type" d)

  abbrev pub is_readable : Document → Bool
  is_readable d =
      is_returned (source_of d)
      && is_returned (kind_of d)
      && ltb 0 (to_uint32 (m.read_int32 "ctx_id" d))

  abbrev pub is_recorder_document : Document → Bool
  is_recorder_document d = is_recorder (source_of d)

  abbrev pub raw_of : Document → PersistenceMetadataRaw
  raw_of d =
      read_raw m (value_or undefined_source (source_of d)) (value_or undefined_data (kind_of d)) d

  -- What one turn of the loop hands to the rest of it.
  store_raw-Collected :
      (o : Outcome EPersistenceSourceType) (k : Outcome EPersistenceDataType) (d : Document)
      (g : PersistenceMetadata) (gs : List PersistenceMetadata)
      → is_returned o ≡ true
      → is_returned k ≡ true
      → All IsOnlyRaw (g ∷ gs)
      → (out2 : List PersistenceMetadata) × ((rest : List PersistenceMetadata
            → Outcome (List PersistenceMetadata))
          → (o >>= λ source.
              k >>= λ kind. store_raw source (read_raw m source kind d) (g ∷ gs) >>= rest)
            ≡ rest out2)
        × Collected
            (raw_sets (g ∷ gs)
              ++ (if is_recorder o
                  then read_raw m (value_or undefined_source o) (value_or undefined_data k) d ∷ []
                  else []))
            out2
  store_raw-Collected aborted k d g gs ho hk h = cc
  store_raw-Collected undefined k d g gs ho hk h = cc
  store_raw-Collected (returned s) aborted d g gs ho hk h = cc
  store_raw-Collected (returned s) undefined d g gs ho hk h = cc
  store_raw-Collected (returned autonomous_recorder) (returned q) d g gs ho hk h =
      let (out2, e, c) = add_raw-Collected (read_raw m autonomous_recorder q d) g gs h in
      (out2, λ rest. ap (λ o. o >>= rest) e, c)
  store_raw-Collected (returned video_server) (returned q) d g gs ho hk h =
      (g ∷ gs, λ rest. refl, same_sets g gs h)
  store_raw-Collected (returned dss) (returned q) d g gs ho hk h =
      (g ∷ gs, λ rest. refl, same_sets g gs h)
  store_raw-Collected (returned undefined_source) (returned q) d g gs ho hk h =
      (g ∷ gs, λ rest. refl, same_sets g gs h)

  abbrev pub recorded : List Document → List PersistenceMetadataRaw
  recorded ds = map raw_of (filter is_recorder_document ds)

  recorded_first :
      (d : Document) (ds : List Document)
      → (if is_recorder_document d then raw_of d ∷ [] else []) ++ recorded ds ≡ recorded (d ∷ ds)
  recorded_first d ds = ground arith

  -- Documents that can be read are read: the recorder's sets are collected in order, and the result
  -- is empty only if nothing was found.
  pub read_contexts-recorded :
      (ds : List Document) (current : ℕ) (out : List PersistenceMetadata)
      → any (λ d. not (is_readable d)) ds ≡ false
      → All IsOnlyRaw out
      → (is_empty out ≡ true → current ≡ 0)
      → (out2 : List PersistenceMetadata) × (read_contexts m ds current out ≡ returned out2)
        × (raw_sets out2 ≡ raw_sets out ++ recorded ds)
        × All IsOnlyRaw out2
        × (is_empty out2 ≡ (is_empty out && is_empty ds))
  read_contexts-recorded [] current out r h start = (out, refl, sym (append_nil _), h, ground arith)
  read_contexts-recorded (d ∷ ds) current out r h start =
      let ctx = to_uint32 (m.read_int32 "ctx_id" d) in
      let (g, gs, grow, same, only) = grown ctx current out (ground arith) h start in
      let (out2, step, c) =
        store_raw-Collected (source_of d) (kind_of d) d g gs (ground arith) (ground arith) only in
      let (out3, e, raws, only3, filled) =
        read_contexts-recorded ds ctx out2 (ground arith) c.only_raw
          (λ z. ground (arith, c.filled)) in
      (
        out3,
        ap
              (λ grown_out. source_of d >>= λ source. kind_of d >>= λ kind.
                store_raw source (read_raw m source kind d) grown_out >>= λ next.
                read_contexts m ds ctx next)
              grow
            ∙ step (λ next. read_contexts m ds ctx next)
            ∙ e,
        raws
            ∙ ap (λ xs. xs ++ recorded ds) c.raws
            ∙ append_assoc (raw_sets (g ∷ gs)) _ (recorded ds)
            ∙ ap (λ xs. raw_sets (g ∷ gs) ++ xs) (recorded_first d ds)
            ∙ ap (λ xs. xs ++ recorded (d ∷ ds)) same,
        only3,
        ground (arith, filled, c.filled),
      )
