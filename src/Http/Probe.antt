-- ===== src/Http/Probe.antt =====
-- internal/adapter/http/adapter.go: Probe behind its request. `parse_time` stands for parseHTTPTime.
use pget.Base.{
  ℕ, ◌≡◌, ◌⊎◌, refl, inl, inr, Bool, true, false, ◌&&◌, not, List, [], Option, none, some, arith,
  ◌-◌, ◌==◌, leb, if◌then◌else◌, bytes, same_text, has_prefix, Bool-cases, subst, ==_iff,
}
use pget.Base.Int64.{modulus, le64}
use pget.Http.Filename.{extract_filename}
use pget.Http.Range.{Response, parse_content_range_total}

pub record ProbeResult : Type 0 where
  pub etag : List ℕ
  pub last_modified : List ℕ
  pub size : ℕ
  pub range_capable : Bool
  pub meta_size : ℕ
  pub meta_etag : List ℕ
  pub meta_last_modified : List ℕ
  pub meta_range_capable : Bool
  pub mod_time : Option ℕ
  pub filename : List ℕ
  pub final_url : List ℕ
  pub display_url : List ℕ
  pub protocol : List ℕ

unfoldable pub is_strong_etag : List ℕ → Bool
unfolding same_text has_prefix bytes
is_strong_etag etag =
    not (same_text etag [])
    && not (has_prefix etag (bytes "W/"))
    && not (has_prefix etag (bytes "w/"))

unfoldable pub located : Response → ProbeResult
unfolding extract_filename
located resp = record {
  etag = [];
  last_modified = [];
  size = 0;
  range_capable = false;
  meta_size = 0;
  meta_etag = [];
  meta_last_modified = [];
  meta_range_capable = false;
  mod_time = none;
  filename = extract_filename resp.content_disposition resp.url_path;
  final_url = resp.final_url;
  display_url = resp.display_url;
  protocol = resp.scheme;
}

-- A server that ignored the range.
unfoldable pub not_partial : Response → ProbeResult
unfolding located
not_partial resp =
    if le64 resp.content_length 0
    then record (located resp) { meta_size = modulus - 1 }
    else record (located resp) { size = resp.content_length; meta_size = resp.content_length }

-- The choice of a validator: a strong ETag, or a Last-Modified that is not absent.
unfoldable pub choose_validator : Bool → Bool → Response → ProbeResult → ProbeResult
choose_validator true absent resp r = record r {
  etag = resp.etag;
  meta_etag = resp.etag;
  range_capable = true;
  meta_range_capable = true;
}
choose_validator false false resp r = record r {
  last_modified = resp.last_modified;
  meta_last_modified = resp.last_modified;
  range_capable = true;
  meta_range_capable = true;
}
choose_validator false true resp r = r

unfoldable pub with_validator : Response → ProbeResult → ProbeResult
unfolding is_strong_etag choose_validator same_text
with_validator resp r =
    choose_validator (is_strong_etag resp.etag) (same_text resp.last_modified []) resp r

module _ (parse_time : List ℕ → Option ℕ) where
  unfoldable pub partial : Response → Option ℕ → ProbeResult
  unfolding located with_validator
  partial resp none = record (located resp) { meta_size = modulus - 1 }
  partial resp (some total) = with_validator resp (record (located resp) {
    size = total;
    meta_size = total;
    mod_time = parse_time resp.last_modified;
  })

  -- `none` is the error of a status of 400 or more.
  unfoldable pub probe : Response → Option ProbeResult
  unfolding not_partial partial parse_content_range_total
  probe resp =
      if leb 400 resp.status
      then none
      else if resp.status == 206
      then some (partial resp (parse_content_range_total resp.content_range))
      else some (not_partial resp)

  not_partial-incapable : (resp : Response) → (not_partial resp).range_capable ≡ false
  unfolding not_partial located
  not_partial-incapable resp = elim (Bool-cases (le64 resp.content_length 0)) [
    | inl e ↦ simp e refl
    | inr e ↦ simp e refl
  ]

-- What a result for parallel retrieval rests on: the total that the server named, and a validator.
abbrev pub IsUsable : Response → ProbeResult → Type 0
IsUsable resp r =
    (parse_content_range_total resp.content_range ≡ some r.size)
    × (((r.etag ≡ resp.etag) × (is_strong_etag resp.etag ≡ true))
        ⊎ ((r.last_modified ≡ resp.last_modified) × (same_text resp.last_modified [] ≡ false)))

-- The result, where there is one, is usable if it is range capable.
abbrev Checked : Response → Option ProbeResult → Type 0
Checked resp none = Unit
Checked resp (some r) = r.range_capable ≡ true → (resp.status ≡ 206) × IsUsable resp r

choose_validator-IsUsable :
    (strong absent : Bool) (resp : Response) (r : ProbeResult)
    → is_strong_etag resp.etag ≡ strong
    → same_text resp.last_modified [] ≡ absent
    → r.range_capable ≡ false
    → parse_content_range_total resp.content_range ≡ some r.size
    → (choose_validator strong absent resp r).range_capable ≡ true
    → IsUsable resp (choose_validator strong absent resp r)
unfolding choose_validator
choose_validator-IsUsable true absent resp r e e' off total on = (total, inl (refl, e))
choose_validator-IsUsable false false resp r e e' off total on = (total, inr (refl, e'))
choose_validator-IsUsable false true resp r e e' off total on = absurd (ground (arith, off, on))

partial-IsUsable :
    (parse_time : List ℕ → Option ℕ) (resp : Response) (total : Option ℕ)
    → parse_content_range_total resp.content_range ≡ total
    → (partial parse_time resp total).range_capable ≡ true
    → IsUsable resp (partial parse_time resp total)
unfolding partial with_validator located
partial-IsUsable parse_time resp none e on = absurd (ground (arith, on))
partial-IsUsable parse_time resp (some total) e on =
    choose_validator-IsUsable _ _ resp _ refl refl refl e on

probe-Checked :
    (parse_time : List ℕ → Option ℕ) (resp : Response) → Checked resp (probe parse_time resp)
unfolding probe
probe-Checked parse_time resp = elim (Bool-cases (leb 400 resp.status)) [
  | inl e ↦ rw e tt
  | inr e ↦ rw e (elim (Bool-cases (resp.status == 206)) [
    | inl ok ↦
        rw ok (λ on. ((==_iff resp.status 206).0 ok, partial-IsUsable parse_time resp _ refl on))
    | inr other ↦
        rw other (λ on. absurd (ground (arith, on, not_partial-incapable parse_time resp)))
  ])
]

-- Where Probe calls a resource range capable, so that it may be fetched in parallel, the server had
-- answered 206, the size is the total that its Content-Range names, and the result carries the
-- response's strong ETag or its Last-Modified, which is not empty.
pub probe-IsUsable :
    (parse_time : List ℕ → Option ℕ) (resp : Response) (r : ProbeResult)
    → probe parse_time resp ≡ some r
    → r.range_capable ≡ true
    → (resp.status ≡ 206) × IsUsable resp r
probe-IsUsable parse_time resp r e = subst (Checked resp) e (probe-Checked parse_time resp)
