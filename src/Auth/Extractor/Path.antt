-- ===== src/Auth/Extractor/Path.antt =====
-- The portal app ID in a path, and its place beside the header:
-- auth/portal_app_id_extractor.go.
use path_external_auth_serve.Base.{
  GoString, bytes, has_prefix, has_prefix_iff, trim_prefix-append, split, All, ℕ, nat_eq,
  nat_eq_iff, ok, err, Bool-cases, [], ◌∷◌, ◌++◌, ◌≡◌, ◌≢◌, ◌↔◌, ◌⊎◌, inl, inr, refl, sym, ap, ◌∙◌,
  subst, arith, if◌then◌else◌, string_Eq, string_eq_iff,
}
use path_external_auth_serve.PortalApp.{PortalAppId}
use path_external_auth_serve.Http.{Header, get}
use path_external_auth_serve.Auth.Names.{req_header_portal_app_id, path_prefix}
use path_external_auth_serve.Auth.Extractor.{
  first_segment, extract_portal_app_id_from_path, extract_portal_app_id,
}

abbrev pub Lacks : ℕ → GoString → Type 0
Lacks sep s = All (λ c. c ≢ sep) s

-- The text begins with this segment: it is the whole text, or a separator follows it.
pub record IsFirstSegment (sep : ℕ) (text segment : GoString) : Type 0 where
  pub plain : Lacks sep segment
  pub followed : (text ≡ segment) ⊎ ((rest : GoString) × (text ≡ segment ++ sep ∷ rest))

split-cons :
    (c : ℕ) (s : GoString) (sep : ℕ)
    → first_segment (split (c ∷ s) sep)
      ≡ (if nat_eq c sep then [] else c ∷ first_segment (split s sep))
unfolding split
split-cons c s sep = ground arith

first_segment_sound : (s : GoString) (sep : ℕ) → IsFirstSegment sep s (first_segment (split s sep))
first_segment_sound [] sep = unfold split in record { plain = tt; followed = inl refl }
first_segment_sound (c ∷ s) sep =
    let ih = first_segment_sound s sep in
    elim (Bool-cases (nat_eq c sep)) [
      | inl cut ↦
          rw (split-cons, cut)
            (record { plain = tt; followed = inr (s, ap (λ x. x ∷ s) ((nat_eq_iff c sep).0 cut)) })
      | inr kept ↦
          rw (split-cons, kept)
            (record {
              plain = (ground arith, ih.plain);
              followed = elim ih.followed [
                | inl whole ↦ inl (ap (◌∷◌ c) whole)
                | inr (rest, e) ↦ inr (rest, ap (◌∷◌ c) e)
              ];
            })
    ]

first_segment-append :
    (sep : ℕ) (segment rest : GoString)
    → Lacks sep segment
    → first_segment (split (segment ++ sep ∷ rest) sep) ≡ segment
first_segment-append sep [] rest _ = ground (arith, split-cons sep rest sep)
first_segment-append sep (c ∷ segment) rest (h, hs) =
    ground
      (arith, split-cons c (segment ++ sep ∷ rest) sep, first_segment-append sep segment rest hs)

first_segment_whole :
    (sep : ℕ) (segment : GoString) → Lacks sep segment → first_segment (split segment sep) ≡ segment
first_segment_whole sep [] _ = unfold split in refl
first_segment_whole sep (c ∷ segment) (h, hs) =
    ground (arith, split-cons c segment sep, first_segment_whole sep segment hs)

first_segment_iff :
    (s : GoString) (sep : ℕ) (segment : GoString)
    → (first_segment (split s sep) ≡ segment) ↔ IsFirstSegment sep s segment
first_segment_iff s sep segment = (
  λ e. subst (IsFirstSegment sep s) e (first_segment_sound s sep),
  λ f. elim f.followed [
    | inl whole ↦
        ap (λ t. first_segment (split t sep)) whole ∙ first_segment_whole sep segment f.plain
    | inr (rest, e) ↦
        ap (λ t. first_segment (split t sep)) e ∙ first_segment-append sep segment rest f.plain
  ],
)

from_path-append :
    (tail : GoString)
    → extract_portal_app_id_from_path (path_prefix ++ tail) ≡ first_segment (split tail b'/')
unfolding extract_portal_app_id_from_path
from_path-append tail =
    rw ((has_prefix_iff (path_prefix ++ tail) path_prefix).1 (tail, refl), trim_prefix-append)

from_path_cases :
    (path : GoString)
    → ((tail : GoString) × (path ≡ path_prefix ++ tail)
        × (extract_portal_app_id_from_path path ≡ first_segment (split tail b'/')))
      ⊎ (extract_portal_app_id_from_path path ≡ [])
from_path_cases path = elim (Bool-cases (has_prefix path path_prefix)) [
  | inl begins ↦
      let (tail, e) = (has_prefix_iff path path_prefix).0 begins in
      inl (tail, e, ap extract_portal_app_id_from_path e ∙ from_path-append tail)
  | inr other ↦ inr (unfold extract_portal_app_id_from_path in rw other)
]

-- A path gives a portal app ID exactly when it is "/v1/", the ID and, behind a further slash,
-- anything; the ID is not empty and holds no slash.
pub extract_portal_app_id_from_path_iff :
    (path id : GoString)
    → id ≢ []
    → (extract_portal_app_id_from_path path ≡ id)
      ↔ ((tail : GoString) × (path ≡ path_prefix ++ tail) × IsFirstSegment b'/' tail id)
extract_portal_app_id_from_path_iff path id h = (
  λ e. elim (from_path_cases path) [
    | inl (tail, whole, found) ↦ (tail, whole, (first_segment_iff tail b'/' id).0 (sym found ∙ e))
    | inr nothing ↦ absurd (h (sym e ∙ nothing))
  ],
  λ f.
      ap extract_portal_app_id_from_path f.1
      ∙ from_path-append f.0
      ∙ (first_segment_iff f.0 b'/' id).1 f.2,
)

-- The header is taken first, then the path: a request has the ID of its Portal-Application-ID
-- header if that is not empty, else the one in its path, and with neither it is an error.
pub extract_portal_app_id_iff :
    (headers : Header) (path : GoString)
    → ((id : PortalAppId)
        → (extract_portal_app_id headers path ≡ ok id) ↔ (
            (id ≢ [])
            × ((get headers req_header_portal_app_id ≡ id)
                ⊎ ((get headers req_header_portal_app_id ≡ [])
                    × (extract_portal_app_id_from_path path ≡ id)))))
      × ((extract_portal_app_id headers path
            ≡ err (bytes "portal app ID not provided in header or path"))
          ↔ ((get headers req_header_portal_app_id ≡ [])
              × (extract_portal_app_id_from_path path ≡ [])))
unfolding extract_portal_app_id
extract_portal_app_id_iff headers path =
    let in_header = get headers req_header_portal_app_id in
    let in_path = extract_portal_app_id_from_path path in
    (
      λ id. ground (arith, string_eq_iff in_header [], string_eq_iff in_path []),
      ground (arith, string_eq_iff in_header [], string_eq_iff in_path []),
    )
