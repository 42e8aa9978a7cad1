-- ===== src/Client/Framing.antt =====
-- The client's end of the protocol: how far a reply goes, as a client finds it out from the lengths in
-- the reply. It is written from the protocol, not from the code that sends.
pub mod Lengths
pub mod Structs
pub mod Names
pub mod Takes
pub mod Replies
use ceserver_pcileech.Prelude.{
  ℕ, zero, suc, ◌*◌, List, [], ◌∷◌, Bool, true, false, if◌then◌else◌, leb, ◌==◌, Option, none, some,
  length, drop,
}
use ceserver_pcileech.Commands.RoundTrip.{word}
use ceserver_pcileech.Client.Protection.{has_bits}
use ceserver_pcileech.Client.Snapshots.{th32cs_snapthread, th32cs_snapmodule}
use ceserver_pcileech.Client.Spec.{
  Request, makes_snapshot, makes_snapshot_ex, asks_process, asks_module, closes_handle,
  opens_process, starts_debug, asks_version, asks_abi, asks_options, closes_connection,
  terminates_server, sets_name, asks_symbols, reads_memory, writes_memory, asks_region,
  asks_regions,
}

-- What is left behind the bytes that are skipped, if there are so many.
unfoldable pub skip : ℕ → List ℕ → Option (List ℕ)
skip n bs = if leb n (length bs) then some (drop n bs) else none

-- A count of `w` bytes and so many entries of `unit` bytes.
unfoldable pub skip_counted : ℕ → ℕ → List ℕ → Option (List ℕ)
unfolding skip
skip_counted w unit bs = elim (word w bs) [ none ↦ none | some read ↦ skip (read.0 * unit) read.1 ]

-- A struct of `n` bytes that ends with the length of the name behind it.
unfoldable pub skip_named : ℕ → List ℕ → Option (List ℕ)
unfolding skip_counted skip
skip_named n bs = elim (skip n bs) [ none ↦ none | some rest ↦ skip_counted 4 1 rest ]

-- Module entries up to one whose result is 0.
unfoldable pub skip_modules : ℕ → List ℕ → Option (List ℕ)
unfolding skip_named
skip_modules zero bs = none
skip_modules (suc fuel) bs = elim (word 4 bs) [
  | none ↦ none
  | some read ↦ elim (skip_named 16 read.1) [
    | none ↦ none
    | some rest ↦ let others = skip_modules fuel rest in if read.0 == 0 then some rest else others
  ]
]

unfoldable pub skip_snapshot_ex : ℕ → List ℕ → Option (List ℕ)
unfolding skip skip_counted skip_modules
skip_snapshot_ex flags bs =
    if has_bits flags th32cs_snapthread
    then skip_counted 4 4 bs
    else if has_bits flags th32cs_snapmodule
    then skip_modules (length bs) bs
    else skip 4 bs

unfoldable pub skip_query : Bool → List ℕ → Option (List ℕ)
unfolding skip skip_counted
skip_query with_name bs = elim (skip 25 bs) [
  | none ↦ none
  | some rest ↦ if with_name then skip_counted 1 1 rest else some rest
]

unfoldable pub skip_version : List ℕ → Option (List ℕ)
unfolding skip skip_counted
skip_version bs = elim (skip 4 bs) [ none ↦ none | some rest ↦ skip_counted 1 1 rest ]

-- What is left behind the reply to a request.
abbrev pub skip_reply : Request → List ℕ → Option (List ℕ)
skip_reply (makes_snapshot flags pid) = skip 4
skip_reply (makes_snapshot_ex flags pid) = skip_snapshot_ex flags
skip_reply (asks_process _ h) = skip_named 8
skip_reply (asks_module _ h) = skip_named 20
skip_reply (closes_handle h) = skip 4
skip_reply (opens_process pid) = skip 4
skip_reply (starts_debug h) = skip 4
skip_reply asks_version = skip_version
skip_reply asks_abi = skip 1
skip_reply asks_options = skip 2
skip_reply closes_connection = skip 0
skip_reply terminates_server = skip 0
skip_reply (sets_name name) = skip 0
skip_reply (asks_symbols path) = skip 8
skip_reply (reads_memory h a n z) = skip_counted 4 1
skip_reply (writes_memory h a bs) = skip 4
skip_reply (asks_region with_name h a) = skip_query with_name
skip_reply (asks_regions h flags) = skip_counted 4 24

-- The replies to some requests, one behind the other.
unfoldable pub skip_replies : List Request → List ℕ → Option (List ℕ)
skip_replies [] bs = some bs
skip_replies (r ∷ rs) bs = elim (skip_reply r bs) [ none ↦ none | some rest ↦ skip_replies rs rest ]
