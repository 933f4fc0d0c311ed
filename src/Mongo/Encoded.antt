-- ===== src/Mongo/Encoded.antt =====
-- A collection that holds encodings of items: what the driver's operations do to it, in terms of the
-- items.
use microservice_common.Base.{
  String, ◌≡◌, refl, ap, sym, ◌∙◌, ◌↔◌, Bool, true, not, List, [], ◌∷◌, ◌++◌, map, filter,
  filter-map, filter-congr, any-map, any-congr, ◌==◌, some,
}
use mathlib.Core.List.{map-append}
use microservice_common.Base.Counting.{count, SameItems, count-map, count-congr, SameItems-map}
use microservice_common.Base.Keys.{any-SameItems, any_unique, is_unique, filter-none, filter-all}
use microservice_common.Mongo.Document.{Value, Document, same_value, field, field_or_null}
use microservice_common.Mongo.Query.{Query, everything, is_in, satisfies}
use microservice_common.Mongo.Pipeline.{singles_pipeline, singles_of, is_single, single_document}
use microservice_common.Mongo.Driver.{Driver}

module _ {ℓ} (m : Driver) {A : Type ℓ} (encode : A → Document) where
  abbrev pub Encodes : m.Table → List A → Type 0
  Encodes t xs = m.contents t ≡ map encode xs

  pub insert-Encodes :
      (a : A) (t : m.Table) (xs : List A)
      → (m.insert (encode a) t).1 ≡ true
      → Encodes t xs
      → Encodes (m.insert (encode a) t).0 (xs ++ a ∷ [])
  insert-Encodes a t xs done h =
      m.insert_lem (encode a) t done
      ∙ ap (λ ds. ds ++ encode a ∷ []) h
      ∙ sym (map-append encode xs (a ∷ []))

  pub remove-Encodes :
      (q : Query) (p : A → Bool) (t : m.Table) (xs : List A)
      → ((a : A) → satisfies q (encode a) ≡ p a)
      → (m.remove q t).1 ≡ true
      → Encodes t xs
      → Encodes (m.remove q t).0 (filter (λ a. not (p a)) xs)
  remove-Encodes q p t xs e done h =
      m.remove_lem q t done
      ∙ ap (filter (λ d. not (satisfies q d))) h
      ∙ filter-map encode (λ d. not (satisfies q d)) xs
      ∙ ap (map encode) (filter-congr _ (λ a. not (p a)) xs (λ a. ap not (e a)))

  pub remove_everything-Encodes :
      (t : m.Table) (xs : List A)
      → (m.remove everything t).1 ≡ true
      → Encodes t xs
      → Encodes (m.remove everything t).0 []
  remove_everything-Encodes t xs done h =
      remove-Encodes everything (λ a. true) t xs (λ a. refl) done h
      ∙ ap (map encode) (filter-none xs)

  pub find-Encodes :
      (q : Query) (p : A → Bool) (t : m.Table) (xs : List A)
      → ((a : A) → satisfies q (encode a) ≡ p a)
      → Encodes t xs
      → SameItems (m.find q t) (map encode (filter p xs))
  find-Encodes q p t xs e h r =
      m.find_lem q t r
      ∙ ap (count r) (
          ap (filter (satisfies q)) h
          ∙ filter-map encode (satisfies q) xs
          ∙ ap (map encode) (filter-congr _ p xs e))

  pub find_all-Encodes :
      (t : m.Table) (xs : List A) → Encodes t xs → SameItems (m.find everything t) (map encode xs)
  find_all-Encodes t xs h p =
      find-Encodes everything (λ a. true) t xs (λ a. refl) h p
      ∙ ap (λ ys. count p (map encode ys)) (filter-all xs)

  -- The items by one field: `key` of an item stands there under `tag`, and `read` gets it back.
  module _ {K : Type 0} (f : String) (key : A → K) (tag : K → Value) (eq : K → K → Bool)
      (eq_iff : (j k : K) → (eq j k ≡ true) ↔ (j ≡ k))
      (tag_eq : (j k : K) → same_value (tag j) (tag k) ≡ eq j k) (read : Document → K)
      (field-encode : (a : A) → field f (encode a) ≡ some (tag (key a)))
      (read-single : (a : A) → read (single_document f (encode a)) ≡ key a) where
    abbrev pub unique_items : List A → List A
    unique_items xs = filter (λ a. is_unique key eq xs (key a)) xs

    field_or_null-encode : (a : A) → field_or_null f (encode a) ≡ tag (key a)
    field_or_null-encode a = rw (field-encode a, field_or_null) refl

    is_single-encode :
        (xs : List A) (a : A) → is_single f (map encode xs) (encode a) ≡ is_unique key eq xs (key a)
    is_single-encode xs a =
        ap (λ n. n == 1)
          (count-map encode _ xs
            ∙ count-congr _ (λ x. eq (key a) (key x)) xs
                (λ x. rw (field_or_null-encode a, field_or_null-encode x) (tag_eq (key a) (key x))))

    map-read-single :
        (ys : List A) → map read (map (single_document f) (map encode ys)) ≡ map key ys
    map-read-single [] = refl
    map-read-single (y ∷ ys) = λ i. read-single y i ∷ map-read-single ys i

    keys-SameItems :
        (t : m.Table) (xs : List A)
        → Encodes t xs
        → SameItems (map read (m.aggregate (singles_pipeline f) t)) (map key (unique_items xs))
    keys-SameItems t xs h p =
        SameItems-map read _ (singles_of f (m.contents t)) (m.aggregate-singles f t) p
        ∙ ap (λ ds. count p (map read (singles_of f ds))) h
        ∙ ap (λ ds. count p (map read (map (single_document f) ds)))
            (filter-map encode (is_single f (map encode xs)) xs
              ∙ ap (map encode)
                  (filter-congr _ (λ a. is_unique key eq xs (key a)) xs (is_single-encode xs)))
        ∙ ap (count p) (map-read-single (unique_items xs))

    -- The keys that one item only has, asked for in a second query, bring back those items.
    pub find_unique-Encodes :
        (t : m.Table) (xs : List A)
        → Encodes t xs
        → SameItems
            (m.find (is_in f (map tag (map read (m.aggregate (singles_pipeline f) t)))) t)
            (map encode (unique_items xs))
    find_unique-Encodes t xs h =
        find-Encodes _ (λ a. is_unique key eq xs (key a)) t xs
          (λ a. rw (field-encode a) (
            any-map tag _ found
            ∙ any-congr _ (λ k. eq k (key a)) found (λ k. tag_eq k (key a))
            ∙ any-SameItems _ found _ (keys-SameItems t xs h)
            ∙ any_unique key eq eq_iff xs (key a)))
          h
      where
        found : List K
        found = map read (m.aggregate (singles_pipeline f) t)
