-- ===== src/Client/Framing/Structs.antt =====
-- The structs without a name, and lists of words and of regions.
use ceserver_pcileech.Prelude.{
  ℕ, ◌*◌, ◌^◌, ◌<◌, ◌≡◌, refl, ap, ◌∙◌, List, [], ◌∷◌, ◌++◌, some, length, length-append,
  append_assoc, append-nil, arith, true, false,
}
use ceserver_pcileech.Prelude.Bytes.{le_bytes, length-le_bytes}
use ceserver_pcileech.Commands.Layout.{
  CeVirtualQueryExOutput, CeRegionInfo, CeVersion, query_output_bytes, region_info_bytes,
  version_bytes,
}
use ceserver_pcileech.Memory.Region.{ThreadInfo}
use ceserver_pcileech.Client.Facts.{concat_map}
use ceserver_pcileech.Client.Framing.{skip_counted, skip_version, skip_query}
use ceserver_pcileech.Client.Framing.Lengths.{skip-append, skip_counted-le_bytes}

length-query_output_bytes : (e : CeVirtualQueryExOutput) → length (query_output_bytes e) ≡ 25
unfolding query_output_bytes
length-query_output_bytes e = omega (
  arith,
  length-append (le_bytes 1 e.result) (
      le_bytes 4 e.protection
      ++ (le_bytes 4 e.type ++ (le_bytes 8 e.baseaddress ++ le_bytes 8 e.size))),
  length-append (le_bytes 4 e.protection)
      (le_bytes 4 e.type ++ (le_bytes 8 e.baseaddress ++ le_bytes 8 e.size)),
  length-append (le_bytes 4 e.type) (le_bytes 8 e.baseaddress ++ le_bytes 8 e.size),
  length-append (le_bytes 8 e.baseaddress) (le_bytes 8 e.size),
  length-le_bytes 1 e.result,
  length-le_bytes 4 e.protection,
  length-le_bytes 4 e.type,
  length-le_bytes 8 e.baseaddress,
  length-le_bytes 8 e.size,
)

length-region_info_bytes : (e : CeRegionInfo) → length (region_info_bytes e) ≡ 24
unfolding region_info_bytes
length-region_info_bytes e = omega (
  arith,
  length-append (le_bytes 8 e.baseaddress)
      (le_bytes 8 e.size ++ (le_bytes 4 e.protection ++ le_bytes 4 e.type)),
  length-append (le_bytes 8 e.size) (le_bytes 4 e.protection ++ le_bytes 4 e.type),
  length-append (le_bytes 4 e.protection) (le_bytes 4 e.type),
  length-le_bytes 8 e.baseaddress,
  length-le_bytes 8 e.size,
  length-le_bytes 4 e.protection,
  length-le_bytes 4 e.type,
)

-- Entries of the same length, one behind the other.
pub length-concat_map :
    {A : Type 0} (g : A → List ℕ) (unit : ℕ) (xs : List A)
    → ((x : A) → length (g x) ≡ unit)
    → length (concat_map g xs) ≡ length xs * unit
length-concat_map g unit [] e = omega arith
length-concat_map g unit (x ∷ xs) e =
    ground (arith, length-append (g x) (concat_map g xs), length-concat_map g unit xs e, e x)

pub skip-threads :
    (threads : List ThreadInfo) (rest : List ℕ)
    → length threads < 256 ^ 4
    → skip_counted 4 4
        ((le_bytes 4 (length threads) ++ concat_map (λ t. le_bytes 4 t.tid) threads) ++ rest)
      ≡ some rest
skip-threads threads rest fits =
    ap (skip_counted 4 4) (append_assoc (le_bytes 4 (length threads)) _ rest)
    ∙ skip_counted-le_bytes 4 4 (length threads) _ rest fits
        (length-concat_map (λ t. le_bytes 4 t.tid) 4 threads λ t. length-le_bytes 4 t.tid)

pub skip-region_infos :
    {A : Type 0} (g : A → CeRegionInfo) (xs : List A) (rest : List ℕ)
    → length xs < 256 ^ 4
    → skip_counted 4 24
        ((le_bytes 4 (length xs) ++ concat_map (λ x. region_info_bytes (g x)) xs) ++ rest)
      ≡ some rest
skip-region_infos g xs rest fits =
    ap (skip_counted 4 24) (append_assoc (le_bytes 4 (length xs)) _ rest)
    ∙ skip_counted-le_bytes 4 24 (length xs) _ rest fits
        (length-concat_map (λ x. region_info_bytes (g x)) 24 xs λ x. length-region_info_bytes (g x))

pub skip_version-version_bytes :
    (e : CeVersion) (text rest : List ℕ)
    → e.stringsize ≡ length text
    → length text < 256
    → skip_version ((version_bytes e ++ text) ++ rest) ≡ some rest
unfolding version_bytes skip_version
skip_version-version_bytes e text rest same fits =
    rw
      (
        append_assoc (le_bytes 4 e.version ++ le_bytes 1 e.stringsize) text rest,
        append_assoc (le_bytes 4 e.version) (le_bytes 1 e.stringsize) (text ++ rest),
        skip_version,
        skip-append 4 (le_bytes 4 e.version) (le_bytes 1 e.stringsize ++ (text ++ rest))
            (length-le_bytes 4 e.version),
        skip_counted-le_bytes 1 1 e.stringsize text rest (omega (arith, same))
            (omega (arith, same)),
      )
      refl

pub skip_query-alone :
    (e : CeVirtualQueryExOutput) (rest : List ℕ)
    → skip_query false ((query_output_bytes e ++ []) ++ rest) ≡ some rest
unfolding skip_query
skip_query-alone e rest =
    rw
      (
        append-nil (query_output_bytes e),
        skip_query,
        skip-append 25 (query_output_bytes e) rest (length-query_output_bytes e),
      )
      refl

pub skip_query-named :
    (e : CeVirtualQueryExOutput) (name rest : List ℕ)
    → length name < 256
    → skip_query true ((query_output_bytes e ++ (le_bytes 1 (length name) ++ name)) ++ rest)
      ≡ some rest
unfolding skip_query
skip_query-named e name rest fits =
    rw
      (
        append_assoc (query_output_bytes e) (le_bytes 1 (length name) ++ name) rest,
        append_assoc (le_bytes 1 (length name)) name rest,
        skip_query,
        skip-append 25 (query_output_bytes e) (le_bytes 1 (length name) ++ (name ++ rest))
            (length-query_output_bytes e),
        skip_counted-le_bytes 1 1 (length name) name rest fits (omega arith),
      )
      refl
