-- ===== src/Client/Answers/Fixed.antt =====
-- The handlers with a fixed answer, and the name of the connection.
use ceserver_pcileech.Prelude.{
  ℕ, ◌+◌, ◌%◌, ◌<◌, ◌^◌, ◌≡◌, refl, ap, sym, subst, List, [], ◌∷◌, ◌++◌, arith, if◌then◌else◌, some,
  length, drop, ltb, ◌==◌, take-append,
}
use ceserver_pcileech.Prelude.Bytes.{le_bytes}
use ceserver_pcileech.Commands.Layout.{version_bytes}
use ceserver_pcileech.Machine.{Machine, NetLaws}
use ceserver_pcileech.Client.Monad.{
  M, Ctx, ◌>>=◌, ◌>>◌, pure, raise, send, read_into, until_nul, or_raise, out_of_bounds,
  unterminated,
}
use ceserver_pcileech.Client.Facts.{
  Facts, facts, Does, bind-Does, send-Does, send_word-Does, read_into-Does,
}
use ceserver_pcileech.Client.Facts.Blocks.{read-Does, Replies-append}
use ceserver_pcileech.Client.Snapshots.{
  handle_command_get_version, handle_command_get_abi, handle_command_set_connection_name,
  handle_command_get_options, version_string, ce_server_version, abi_windows, terminated, set_name,
}
use ceserver_pcileech.Client.Spec.{answer, asks_version, asks_abi, asks_options, sets_name, name_of}

-- A zero is found whatever lies behind it, and the text before it is the same.
until_nul-append :
    (bs tail : List ℕ) → (t : List ℕ) × (until_nul (bs ++ 0 ∷ tail) ≡ some t) × (name_of bs ≡ t)
unfolding until_nul
until_nul-append [] tail = ([], refl, refl)
until_nul-append (b ∷ bs) tail =
    let (t, found, same) = until_nul-append bs tail in
    (if b == 0 then [] else b ∷ t, ground arith, ground (arith, until_nul-append bs []))

-- The rest of the handler, once the name is in its array.
abbrev names : {m : Machine} → ℕ → List ℕ → M m (Unit {0})
names n array =
    (if ltb n ((n + 1) % 2 ^ 32) then pure tt else raise out_of_bounds)
    >> (or_raise (until_nul (terminated n array)) unterminated >>= set_name)

module _ {m : Machine} (laws : NetLaws m) where
  module _ (c : Ctx m) (s : Facts m) (p : facts laws c ≡ s) where
    pub version-Does : Does laws handle_command_get_version c tt (answer asks_version s).1
    unfolding handle_command_get_version
    version-Does =
        Replies-append laws
          (send (
            version_bytes
              (record { version = ce_server_version; stringsize = length version_string % 2 ^ 8 })))
          (send version_string) _ version_string (send-Does laws _) (send-Does laws version_string)
          c s p

    pub abi-Does : Does laws handle_command_get_abi c tt (answer asks_abi s).1
    unfolding handle_command_get_abi
    abi-Does = send_word-Does laws 1 abi_windows c s p

    pub options-Does : Does laws handle_command_get_options c tt (answer asks_options s).1
    unfolding handle_command_get_options
    options-Does = send_word-Does laws 2 0 c s p

  names-Does :
      (name tail : List ℕ) (c : Ctx m) (s : Facts m)
      → facts laws c ≡ s
      → length name + 1 < 256 ^ 4
      → Does laws
          (names (length name) (name ++ tail))
          c
          tt
          (record s { connection_name = name_of name })
  names-Does name tail c s p fits =
      let (t, found, same) = until_nul-append name (drop (length name + 1) (name ++ tail)) in
      subst
        (λ u.
          Does laws (names (length name) (name ++ tail)) c tt
            (record u { connection_name = name_of name }))
        p
        (
          record c { connection_name = t },
          ground (arith, take-append name tail),
          ap
              (λ r. record {
                state = c.state;
                connection_name = r;
                mem = c.mem;
                sent = c.sent;
                pending = laws.pending c.world;
              })
              (sym same),
        )

  module _ (rest : List ℕ) (c : Ctx m) (s : Facts m) (p : facts laws c ≡ s) where
    pub set_name-Does :
        (name : List ℕ)
        → s.pending ≡ le_bytes 4 (length name) ++ (name ++ rest)
        → length name + 1 < 256 ^ 4
        → Does laws handle_command_set_connection_name c tt
            (answer (sets_name name) (record s { pending = rest })).1
    unfolding handle_command_set_connection_name
    set_name-Does name q fits =
        read-Does laws 4 (length name) _ _ c s tt _ p q (omega (arith, fits)) λ c1 p1.
          bind-Does laws (read_into ((length name + 1) % 2 ^ 32) (length name))
            (names (length name)) c1 _ tt _ _
            (read_into-Does laws ((length name + 1) % 2 ^ 32) (length name) name rest c1 _ p1 refl
              refl (omega (arith, fits)))
            λ c2 p2. names-Does name _ c2 _ p2 fits
