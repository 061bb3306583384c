-- ===== src/Dispatch/Commands.antt =====
-- What the commands of core/src/app.rs do to the senders that they bring: `App::handle_cmd`.
use puppypeer.Prelude.{
  ℕ, refl, ◌==◌, [], Text, Option, none, some, List, Result, ok, err, ◌∷◌, Bool-cases, inl, inr,
}
use puppypeer.State.{PeerId, permissions_for_peer}
use puppypeer.Files
use puppypeer.Wire.{DirEntry, list_dir, list_cpus, list_permissions, read_file}
use puppypeer.Node.Entries.{Host, collect_dir_entries}
use puppypeer.Dispatch.Pending.{
  Sender, await_entries, await_cpus, await_permissions, await_chunk, entries_result, cpus_result,
  permissions_result, chunk_result,
}
use puppypeer.Dispatch.{
  Command, connect, list_dir_cmd, list_cpus_cmd, list_permissions_cmd, read_file_cmd, Net, App,
  command, handle_cmd, list_dir_here, list_cpus_here, list_permissions_here, read_file_here,
  is_self, listed_here, poison_message, dialed,
}
use puppypeer.Dispatch.Senders.{
  IsUnused, IsKeyed, Accounts, lookup_unused, send_request-Accounts, answer-Accounts,
  quiet-Accounts,
}

module _ (host : Host) where
  open host use {os, cpu_info}
  open os use {Disk}

  module _ (app : App Disk) (keyed : IsKeyed app.pending_requests) (net : Net)
      (unused : IsUnused net.request_id app.pending_requests) where
    listed_here-Accounts :
        (peer : PeerId) (path : Text) (tx : Sender) (r : Option (Result (List DirEntry)))
        → Accounts app net.request_id
            (command (list_dir_cmd peer path tx))
            (listed_here host app tx r)
    listed_here-Accounts peer path tx none = tt
    listed_here-Accounts peer path tx (some r) =
        answer-Accounts app keyed net.request_id (command (list_dir_cmd peer path tx)) tx
          (entries_result r) (λ s. refl)

    list_dir_here-Accounts :
        (peer : PeerId) (path : Text) (tx : Sender)
        → Accounts app net.request_id
            (command (list_dir_cmd peer path tx))
            (list_dir_here host app net peer path tx)
    unfolding list_dir_here
    list_dir_here-Accounts peer path tx =
        let input = command (list_dir_cmd peer path tx) in
        elim (Bool-cases (is_self app peer)) [
          | inl e ↦
              rw e (listed_here-Accounts peer path tx (collect_dir_entries host path app.node.disk))
          | inr e ↦
              rw (e, lookup_unused net.request_id app.pending_requests unused)
                (send_request-Accounts app keyed net input peer (list_dir path) (await_entries tx)
                  [] unused (λ s. refl) (λ s. refl))
        ]

    list_cpus_here-Accounts :
        (peer : PeerId) (tx : Sender)
        → Accounts app net.request_id
            (command (list_cpus_cmd tx peer))
            (list_cpus_here host app net tx peer)
    unfolding list_cpus_here
    list_cpus_here-Accounts peer tx =
        let input = command (list_cpus_cmd tx peer) in
        elim (Bool-cases app.node.poisoned) [
          | inl e ↦ rw e tt
          | inr e ↦ elim (Bool-cases (app.node.state.me == peer)) [
            | inl f ↦
                rw (e, f)
                  (answer-Accounts app keyed net.request_id input tx (cpus_result (ok cpu_info))
                    (λ s. refl))
            | inr f ↦
                rw (e, f)
                  (send_request-Accounts app keyed net input peer list_cpus (await_cpus tx) []
                    unused (λ s. refl) (λ s. refl))
          ]
        ]

    list_permissions_here-Accounts :
        (peer : PeerId) (tx : Sender)
        → Accounts app net.request_id
            (command (list_permissions_cmd peer tx))
            (list_permissions_here host app net peer tx)
    unfolding list_permissions_here
    list_permissions_here-Accounts peer tx =
        let input = command (list_permissions_cmd peer tx) in
        elim (Bool-cases app.node.poisoned) [
          | inl e ↦ rw e (
              answer-Accounts app keyed net.request_id input tx
                (permissions_result (err poison_message)) (λ s. refl))
          | inr e ↦ elim (Bool-cases (app.node.state.me == peer)) [
            | inl f ↦
                rw (e, f)
                  (answer-Accounts app keyed net.request_id input tx
                    (permissions_result (ok (permissions_for_peer app.node.state peer)))
                    (λ s. refl))
            | inr f ↦
                rw (e, f, lookup_unused net.request_id app.pending_requests unused)
                  (send_request-Accounts app keyed net input peer list_permissions
                    (await_permissions tx) [] unused (λ s. refl) (λ s. refl))
          ]
        ]

    read_file_here-Accounts :
        (peer : PeerId) (path : Text) (offset : ℕ) (length : Option ℕ) (tx : Sender)
        → Accounts app net.request_id
            (command (read_file_cmd peer path offset length tx))
            (read_file_here host app net peer path offset length tx)
    unfolding read_file_here
    read_file_here-Accounts peer path offset length tx =
        let input = command (read_file_cmd peer path offset length tx) in
        elim (Bool-cases app.node.poisoned) [
          | inl e ↦ rw e tt
          | inr e ↦ elim (Bool-cases (app.node.state.me == peer)) [
            | inl f ↦
                rw (e, f)
                  (answer-Accounts app keyed net.request_id input tx
                    (chunk_result (Files.read_file os path offset length app.node.disk))
                    (λ s. refl))
            | inr f ↦
                rw (e, f)
                  (send_request-Accounts app keyed net input peer (read_file path offset length)
                    (await_chunk tx) [] unused (λ s. refl) (λ s. refl))
          ]
        ]

    pub handle_cmd-Accounts :
        (cmd : Command) → Accounts app net.request_id (command cmd) (handle_cmd host app net cmd)
    unfolding handle_cmd
    handle_cmd-Accounts (connect peer addr) =
        quiet-Accounts app keyed app (dialed addr ∷ []) net.request_id (command (connect peer addr))
          refl (λ s. refl) (λ s. refl)
    handle_cmd-Accounts (list_dir_cmd peer path tx) = list_dir_here-Accounts peer path tx
    handle_cmd-Accounts (list_cpus_cmd tx peer) = list_cpus_here-Accounts peer tx
    handle_cmd-Accounts (list_permissions_cmd peer tx) = list_permissions_here-Accounts peer tx
    handle_cmd-Accounts (read_file_cmd peer path offset length tx) =
        read_file_here-Accounts peer path offset length tx
