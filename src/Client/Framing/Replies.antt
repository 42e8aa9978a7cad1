-- ===== src/Client/Framing/Replies.antt =====
-- The replies to whole requests, as their reader takes them.
use ceserver_pcileech.Prelude.{
  ℕ, ◌%◌, ◌^◌, ◌<◌, ◌≡◌, refl, sym, ap, List, [], ◌++◌, Bool, true, false, if◌then◌else◌, leb, ◌==◌,
  Option, none, Bool-cases, inl, inr, length, append-nil, arith,
}
use ceserver_pcileech.Prelude.Bytes.{le_bytes}
use ceserver_pcileech.ClientState.{
  contains_process_info_handle, contains_memory_region_handle, contains_process_id_handle,
  reset_process_iterator, reset_module_iterator, get_process_id, next_process_info,
  next_memory_region,
}
use ceserver_pcileech.Machine.{Machine, MemoryLaws}
use ceserver_pcileech.Client.Facts.{Facts, concat_map}
use ceserver_pcileech.Client.Protection.{has_bits}
use ceserver_pcileech.Client.Snapshots.{
  version_string, ce_server_version, th32cs_snapmodule, th32cs_snapthread,
}
use ceserver_pcileech.Client.Send.{region_info}
use ceserver_pcileech.Client.Region.{find_region}
use ceserver_pcileech.Client.Spec.{
  Request, Fits, answer, makes_snapshot, makes_snapshot_ex, asks_process, asks_module,
  closes_handle, opens_process, starts_debug, asks_version, asks_abi, asks_options,
  closes_connection, terminates_server, sets_name, asks_symbols, reads_memory, writes_memory,
  asks_region, asks_regions, process_reply, module_reply, query_reply, memory_reply, region_reply,
  end_of_modules, storing_processes, making_snapshot, snapshot_ex_answer, next_process_answer,
  next_module_answer, read_answer, write_answer, region_answer, regions_answer,
}
use ceserver_pcileech.Client.Framing.{
  skip_query, skip, skip_counted, skip_named, skip_snapshot_ex, skip_reply,
}
use ceserver_pcileech.Client.Framing.Lengths.{
  IsShort, skip-append, skip_modules-regions, regions-lt-bytes,
}
use ceserver_pcileech.Client.Framing.Structs.{
  skip-threads, skip-region_infos, skip_version-version_bytes,
}
use ceserver_pcileech.Client.Framing.Names.{ShortNames, SizeLaws}
use ceserver_pcileech.Client.Framing.Takes.{
  Takes, AddressGiven, skip_word, process_reply-Takes, module_reply-Takes, memory_reply-Takes,
  query_reply-Takes, no_name-Takes, no_bytes-Takes,
}
use ceserver_pcileech.Client.Names.Entries.{
  process-restarted, module-restarted, next_process_info-EntryNamed, next_memory_region-EntryNamed,
}

-- What was sent after these facts is taken by a reader.
abbrev pub Extends : {m : Machine} → (List ℕ → Option (List ℕ)) → Facts m → Facts m → Type 0
Extends read s t = (bs : List ℕ) × (t.sent ≡ s.sent ++ bs) × Takes read bs

module _ {m : Machine} (device : MemoryLaws m) (sizes : SizeLaws m) (s : Facts m) where
  snapshot-sent : (flags pid : ℕ) → (making_snapshot flags pid s).1.sent ≡ s.sent
  snapshot-sent flags pid = ground arith

  snapshot_ex-Extends :
      (flags pid : ℕ) → Extends (skip_snapshot_ex flags) s (snapshot_ex_answer flags pid s)
  unfolding skip_snapshot_ex
  snapshot_ex-Extends flags pid =
      let (threads, mem) = m.get_thread_snapshot pid s.mem in
      let (regions, mem') = m.get_module_snapshot pid s.mem in
      elim (Bool-cases (has_bits flags th32cs_snapthread)) [
        | inl e ↦
            rw (e, snapshot_ex_answer)
              (
                le_bytes 4 (length threads) ++ concat_map (λ t. le_bytes 4 t.tid) threads,
                refl,
                λ rest. skip-threads threads rest (sizes.few_threads pid s.mem),
              )
        | inr e ↦ elim (Bool-cases (has_bits flags th32cs_snapmodule)) [
          | inl e' ↦
              rw (e, e', snapshot_ex_answer)
                (
                  concat_map region_reply regions ++ end_of_modules,
                  refl,
                  λ rest.
                      skip_modules-regions _ regions rest (sizes.region_names pid s.mem)
                        (regions-lt-bytes regions rest),
                )
          | inr e' ↦
              rw (e, e', snapshot_ex_answer)
                (le_bytes 4 (storing_processes s).0, refl, skip_word 4 (storing_processes s).0)
        ]
      ]

  process-Extends :
      (b : Bool) (h : ℕ) → ShortNames s.state → Extends (skip_named 8) s (next_process_answer b h s)
  process-Extends b h n =
      let start = if b then reset_process_iterator h s.state else s.state in
      elim (Bool-cases (contains_process_info_handle h s.state)) [
        | inl e ↦ rw e (
          process_reply (next_process_info h start).0,
          refl,
          process_reply-Takes (next_process_info h start).0 (
              next_process_info-EntryNamed IsShort h start
                (process-restarted IsShort b h s.state n)),
        )
        | inr e ↦ rw e (process_reply none, refl, process_reply-Takes none tt)
      ]

  module-Extends :
      (b : Bool) (h : ℕ) → ShortNames s.state → Extends (skip_named 20) s (next_module_answer b h s)
  module-Extends b h n =
      let start = if b then reset_module_iterator h s.state else s.state in
      elim (Bool-cases (contains_memory_region_handle h s.state)) [
        | inl e ↦ rw e (
          module_reply (next_memory_region h start).0,
          refl,
          module_reply-Takes (next_memory_region h start).0 (
              next_memory_region-EntryNamed IsShort h start
                (module-restarted IsShort b h s.state n)),
        )
        | inr e ↦ rw e (module_reply none, refl, module_reply-Takes none tt)
      ]

  read-Extends :
      (h address size z : ℕ)
      → size < 10 ^ 9
      → (read_answer h address size z s).0 ≡ true
      → Extends (skip_counted 4 1) s (read_answer h address size z s).1
  read-Extends h address size z small k = elim (Bool-cases (z == 0)) [
    | inr e ↦ absurd (ground arith)
    | inl ez ↦ elim (Bool-cases (contains_process_id_handle h s.state)) [
      | inr e ↦ absurd (ground arith)
      | inl known ↦ elim (Bool-cases (leb address 0)) [
        | inl e ↦ rw (ez, known, e) (le_bytes 4 0, refl, no_bytes-Takes)
        | inr ea ↦ elim (Bool-cases (leb size 0)) [
          | inl e ↦ rw (ez, known, ea, e) (le_bytes 4 0, refl, no_bytes-Takes)
          | inr en ↦
              let pid = get_process_id h s.state in
              let (read, d, returned, within) =
                device.read_returns pid address size s.mem (omega arith) in
              let whole = sizes.read_whole pid address size s.mem d read small returned in
              rw (ez, known, ea, en, returned, read_answer)
                (memory_reply read, refl, memory_reply-Takes read.0 read.1 whole (omega arith))
        ]
      ]
    ]
  ]

  write-Extends :
      (h address : ℕ) (bs : List ℕ)
      → (write_answer h address bs s).0 ≡ true
      → Extends (skip 4) s (write_answer h address bs s).1
  write-Extends h address bs k = elim (Bool-cases (contains_process_id_handle h s.state)) [
    | inl e ↦ rw e (_, refl, skip_word 4 _)
    | inr e ↦ absurd (ground arith)
  ]

  region-Extends :
      (b : Bool) (h address : ℕ)
      → AddressGiven (asks_region b h address)
      → (region_answer b h address s).0 ≡ true
      → Extends (skip_query b) s (region_answer b h address s).1
  region-Extends b h address given k =
      let pid = get_process_id h s.state in
      let found = find_region address (m.get_module_snapshot pid s.mem).0 in
      elim (Bool-cases (contains_process_id_handle h s.state)) [
        | inr e ↦ absurd (ground arith)
        | inl known ↦ elim (Bool-cases (leb address 0)) [
          | inl e ↦
              rw (known, e)
                (
                  query_reply false m.past_end none,
                  refl,
                  no_name-Takes b h address m.past_end given e,
                )
          | inr e ↦
              rw (known, e)
                (query_reply b m.past_end found, refl, query_reply-Takes b m.past_end found)
        ]
      ]

  regions-Extends :
      (h : ℕ) → (regions_answer h s).0 ≡ true → Extends (skip_counted 4 24) s (regions_answer h s).1
  regions-Extends h k =
      let (regions, mem) = m.get_module_snapshot (get_process_id h s.state) s.mem in
      elim (Bool-cases (contains_process_id_handle h s.state)) [
        | inl e ↦ rw e (
          _,
          refl,
          λ rest.
              skip-region_infos (region_info m.past_end) regions rest
                (sizes.few_regions (get_process_id h s.state) s.mem),
        )
        | inr e ↦ absurd (ground arith)
      ]

  pub answer-Framed :
      (r : Request)
      → Fits r
      → AddressGiven r
      → ShortNames s.state
      → (answer r s).0 ≡ true
      → Extends (skip_reply r) s (answer r s).1
  answer-Framed (makes_snapshot flags pid) f a n k =
      let h = (making_snapshot flags pid s).0 in
      (le_bytes 4 h, ap (λ t. t ++ le_bytes 4 h) (snapshot-sent flags pid), skip_word 4 h)
  answer-Framed (makes_snapshot_ex flags pid) f a n k = snapshot_ex-Extends flags pid
  answer-Framed (asks_process b h) f a n k = process-Extends b h n
  answer-Framed (asks_module b h) f a n k = module-Extends b h n
  answer-Framed (closes_handle h) f a n k = (le_bytes 4 1, refl, skip_word 4 1)
  answer-Framed (opens_process pid) f a n k = (_, refl, skip_word 4 _)
  answer-Framed (starts_debug h) f a n k = (le_bytes 4 h, refl, skip_word 4 h)
  answer-Framed asks_version f a n k = (
    _,
    refl,
    λ rest.
        skip_version-version_bytes
          (record { version = ce_server_version; stringsize = length version_string % 2 ^ 8 })
          version_string rest (omega arith) (omega arith),
  )
  answer-Framed asks_abi f a n k = (_, refl, skip_word 1 _)
  answer-Framed asks_options f a n k = (_, refl, skip_word 2 0)
  answer-Framed closes_connection f a n k = cc
  answer-Framed terminates_server f a n k = cc
  answer-Framed (sets_name name) f a n k =
      ([], sym (append-nil s.sent), λ rest. skip-append 0 [] rest (omega arith))
  answer-Framed (asks_symbols path) f a n k = (_, refl, skip_word 8 0)
  answer-Framed (reads_memory h address size z) f a n k =
      read-Extends h address size z (omega arith) k
  answer-Framed (writes_memory h address bs) f a n k = write-Extends h address bs k
  answer-Framed (asks_region b h address) f a n k = region-Extends b h address a k
  answer-Framed (asks_regions h flags) f a n k = regions-Extends h k
