-- ===== src/Client/Answers/Region.antt =====
-- The handlers of Client/Region answer as the specification says.
use ceserver_pcileech.Prelude.{
  ℕ, suc, ◌<◌, ◌^◌, ◌≡◌, refl, List, [], ◌∷◌, ◌++◌, Bool, true, false, not, arith, append-nil,
  if◌then◌else◌, Option, none, length, leb,
}
use ceserver_pcileech.Prelude.Bytes.{le_bytes}
use ceserver_pcileech.Memory.Region.{MemoryRegion}
use ceserver_pcileech.ClientState.{contains_process_id_handle, get_process_id}
use ceserver_pcileech.Commands.Layout.{query_output_bytes, region_info_bytes}
use ceserver_pcileech.Machine.{Machine, NetLaws}
use ceserver_pcileech.Client.Monad.{
  M, Ctx, ◌>>=◌, ◌>>◌, pure, when, asks, calls, send, send_word, for_each,
}
use ceserver_pcileech.Client.Facts.{
  Facts, facts, Does, bind-Does, pure-Does, asks-Does, calls-Does, send-Does, send_word-Does,
  concat_map,
}
use ceserver_pcileech.Client.Facts.Blocks.{
  read-Does, if-Does, then_pure-Does, block-Does, Replies, Replies-append, Replies-pure,
  Replies-for_each,
}
use ceserver_pcileech.Client.Send.{
  send_virtual_query_ex_result, send_virtual_query_ex_full_result, query_output, region_info,
}
use ceserver_pcileech.Client.Region.{
  find_region, truncated_name, send_name, query_region, handle_command_get_region_info,
  send_regions, handle_command_virtual_query_ex_full,
}
use ceserver_pcileech.Client.Spec.{answer, asks_region, asks_regions, query_reply, replying}

module _ {m : Machine} where
  -- The continuations of the handlers, as they stand in the blocks.
  abbrev describes : Bool → ℕ → List MemoryRegion → M m Bool
  describes with_name a regions =
      send_virtual_query_ex_result (find_region a regions)
      >> (when with_name (send_name (find_region a regions)) >> pure true)

  abbrev queries : Bool → ℕ → ℕ → M m Bool
  queries with_name a pid = calls (m.get_module_snapshot pid) >>= describes with_name a

  abbrev lists : List MemoryRegion → M m Bool
  lists regions =
      send_word 4 (length regions)
      >> (for_each regions send_virtual_query_ex_full_result >> pure true)

  abbrev region_guards : Bool → ℕ → ℕ → Bool → M m Bool
  region_guards with_name h a known =
      if not known
      then pure false
      else if leb a 0
      then send_virtual_query_ex_result none >> pure true
      else query_region with_name h a

  abbrev regions_guard : ℕ → Bool → M m Bool
  regions_guard h known = if not known then pure false else send_regions h

module _ {m : Machine} (laws : NetLaws m) where
  query_result-Replies :
      (r : Option MemoryRegion)
      → Replies laws
          (send_virtual_query_ex_result r)
          (query_output_bytes (query_output m.past_end r))
  unfolding send_virtual_query_ex_result
  query_result-Replies r = send-Does laws (query_output_bytes (query_output m.past_end r))

  -- The name is sent only if it is not empty, which makes no difference on the wire.
  text-Replies :
      (t : List ℕ)
      → Replies laws
          (send_word 1 (length t) >> when (not (leb (length t) 0)) (send t))
          (le_bytes 1 (length t) ++ t)
  text-Replies [] =
      Replies-append laws (send_word 1 0) (pure tt) (le_bytes 1 0) [] (send_word-Does laws 1 0)
        (Replies-pure laws)
  text-Replies (x ∷ xs) = rw (not_empty (length xs)) (
      Replies-append laws (send_word 1 (length (x ∷ xs))) (send (x ∷ xs)) _ (x ∷ xs)
        (send_word-Does laws 1 (length (x ∷ xs))) (send-Does laws (x ∷ xs)))
    where
      not_empty : (n : ℕ) → leb (suc n) 0 ≡ false
      not_empty n = ground arith

  name-Replies :
      (r : Option MemoryRegion)
      → Replies laws (send_name r) (le_bytes 1 (length (truncated_name r)) ++ truncated_name r)
  unfolding send_name
  name-Replies r = text-Replies (truncated_name r)

  when_name-Replies :
      (with_name : Bool) (r : Option MemoryRegion)
      → Replies laws
          (when with_name (send_name r))
          (if with_name then le_bytes 1 (length (truncated_name r)) ++ truncated_name r else [])
  when_name-Replies true r = name-Replies r
  when_name-Replies false r = Replies-pure laws

  describes-Does :
      (with_name : Bool) (a : ℕ) (regions : List MemoryRegion) (c : Ctx m) (s : Facts m)
      → facts laws c ≡ s
      → Does laws
          (describes with_name a regions)
          c
          true
          (replying (query_reply with_name m.past_end (find_region a regions)) s)
  describes-Does with_name a regions c s p =
      let r = find_region a regions in
      block-Does laws (send_virtual_query_ex_result r) (when with_name (send_name r)) true _ _
        (query_result-Replies r) (when_name-Replies with_name r) c s p

  module _ (c : Ctx m) (s : Facts m) (p : facts laws c ≡ s) where
    query_region-Does :
        (with_name : Bool) (h a : ℕ)
        → let (regions, mem) = m.get_module_snapshot (get_process_id h s.state) s.mem in
          Does laws (query_region with_name h a) c true (
            replying
              (query_reply with_name m.past_end (find_region a regions))
              (record s { mem = mem }))
    unfolding query_region
    query_region-Does with_name h a =
        bind-Does laws (asks (get_process_id h)) (queries with_name a) c _ _ _ _
          (asks-Does laws (get_process_id h) c s p)
          λ c' p'.
            bind-Does laws (calls (m.get_module_snapshot (get_process_id h s.state)))
              (describes with_name a) c' _ _ _ _
              (calls-Does laws (m.get_module_snapshot (get_process_id h s.state)) c' _ p')
              λ c'' p''. describes-Does with_name a _ c'' _ p''

    send_regions-Does :
        (h : ℕ)
        → let (regions, mem) = m.get_module_snapshot (get_process_id h s.state) s.mem in
          Does laws (send_regions h) c true (
            replying
              (le_bytes 4 (length regions)
                ++ concat_map (λ r. region_info_bytes (region_info m.past_end r)) regions)
              (record s { mem = mem }))
    unfolding send_regions
    send_regions-Does h =
        let pid = get_process_id h s.state in
        let regions = (m.get_module_snapshot pid s.mem).0 in
        bind-Does laws (asks (get_process_id h)) (λ i. calls (m.get_module_snapshot i) >>= lists) c
          _ _ _ _ (asks-Does laws (get_process_id h) c s p)
          λ c' p'.
            bind-Does laws (calls (m.get_module_snapshot pid)) lists c' _ _ _ _
              (calls-Does laws (m.get_module_snapshot pid) c' _ p')
              λ c'' p''.
                block-Does laws (send_word 4 (length regions))
                  (for_each regions send_virtual_query_ex_full_result) true _ _
                  (send_word-Does laws 4 (length regions))
                  (Replies-for_each laws send_virtual_query_ex_full_result
                    (λ r. region_info_bytes (region_info m.past_end r)) regions
                    (λ r.
                      unfold send_virtual_query_ex_full_result in
                      send-Does laws (region_info_bytes (region_info m.past_end r))))
                  c'' _ p''

  module _ (rest : List ℕ) (c : Ctx m) (s : Facts m) (p : facts laws c ≡ s) where
    pub region_info-Does :
        (with_name : Bool) (h a : ℕ)
        → s.pending ≡ le_bytes 4 h ++ (le_bytes 8 a ++ rest)
        → (h < 256 ^ 4) × (a < 256 ^ 8)
        → let r = answer (asks_region with_name h a) (record s { pending = rest }) in
          Does laws (handle_command_get_region_info with_name) c r.0 r.1
    unfolding handle_command_get_region_info
    region_info-Does with_name h a q fits = read-Does laws 4 h _ _ c s _ _ p q fits.0 λ c1 p1.
        read-Does laws 8 a rest _ c1 _ _ _ p1 refl fits.1 λ c2 p2.
          bind-Does laws (asks (contains_process_id_handle h)) (region_guards with_name h a) c2 _ _
            _ _ (asks-Does laws (contains_process_id_handle h) c2 _ p2)
            λ c3 p3.
              if-Does laws (not (contains_process_id_handle h s.state)) (pure false) _ c3 (false, _)
                _ (pure-Does laws false c3 _ p3)
                (if-Does laws (leb a 0) _ (query_region with_name h a) c3 (true, _) (true, _)
                  (then_pure-Does laws (send_virtual_query_ex_result none) true c3 tt _
                    (rw (append-nil) (query_result-Replies none c3 _ p3)))
                  (query_region-Does c3 _ p3 with_name h a))

    pub regions-Does :
        (h flags : ℕ)
        → s.pending ≡ le_bytes 4 h ++ (le_bytes 1 flags ++ rest)
        → (h < 256 ^ 4) × (flags < 256 ^ 1)
        → let r = answer (asks_regions h flags) (record s { pending = rest }) in
          Does laws handle_command_virtual_query_ex_full c r.0 r.1
    unfolding handle_command_virtual_query_ex_full
    regions-Does h flags q fits = read-Does laws 4 h _ _ c s _ _ p q fits.0 λ c1 p1.
        read-Does laws 1 flags rest _ c1 _ _ _ p1 refl fits.1 λ c2 p2.
          bind-Does laws (asks (contains_process_id_handle h)) (regions_guard h) c2 _ _ _ _
            (asks-Does laws (contains_process_id_handle h) c2 _ p2)
            λ c3 p3.
              if-Does laws (not (contains_process_id_handle h s.state)) (pure false) _ c3 (false, _)
                (true, _) (pure-Does laws false c3 _ p3) (send_regions-Does c3 _ p3 h)
