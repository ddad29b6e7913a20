-- ===== src/Run/Shutdown.antt =====
-- The end of the server: `server_shutdown`, `server_close_clients` and `server_kill_tasks` of
-- src/server.c.
use ichatd.Common.{
  ℕ, ◌++◌, length, append_assoc, append-nil, sym, ◌≡◌, ◌∙◌, refl, ap, true, List, [], ◌∷◌, Option,
  none, some,
}
use ichatd.Config.{S2sBlock}
use ichatd.Task.{TimedTask}
use ichatd.Client.{Client}
use ichatd.Server.{Server}
use ichatd.World.{World}
use ichatd.Link.{link_of, reconnect, client_destroy, close_fd, descriptor}
use ichatd.Run.{close_all, server_close_clients, kill_all, server_kill_tasks, server_shutdown}

-- While the server stops, no link is planned again.
client_destroy_stopping :
    (w : World) (c : Client) (s : Server) → s.shutdown ≡ true → client_destroy w c s ≡ close_fd c s
unfolding client_destroy
client_destroy_stopping w c s h = by_link (link_of c)
  where
    by_link : (o : Option S2sBlock) → reconnect w (close_fd c s) o ≡ close_fd c s
    by_link none = refl
    by_link (some b) = rw h refl

-- The descriptors of the clients, in order.
abbrev pub descriptors : List Client → List ℕ
descriptors [] = []
descriptors (c ∷ cs) = descriptor c ++ descriptors cs

close_all_lem :
    (w : World) (cs : List Client) (s : Server)
    → s.shutdown ≡ true
    → close_all w (length cs) (record s { clist = cs })
      ≡ record s { clist = []; closed = s.closed ++ descriptors cs }
unfolding close_all
close_all_lem w [] s h =
    ap (λ fds. record s { clist = []; closed = fds }) (sym (append-nil s.closed))
close_all_lem w (c ∷ cs) s h =
    ap (close_all w (length cs)) (client_destroy_stopping w c (record s { clist = cs }) h)
    ∙ close_all_lem w cs (close_fd c s) h
    ∙ ap (λ fds. record s { clist = []; closed = fds })
        (append_assoc s.closed (descriptor c) (descriptors cs))

kill_all-nil : (queue : List TimedTask) → kill_all queue ≡ []
unfolding kill_all
kill_all-nil [] = refl
kill_all-nil (t ∷ queue) = kill_all-nil queue

-- After a request to stop, the shutdown closes the descriptor of every client, each once and in the
-- order of the list, empties the list, plans no link again, drops every task, and changes nothing
-- else.
pub server_shutdown_lem :
    (w : World) (s : Server)
    → s.shutdown ≡ true
    → (server_close_clients w s ≡ record s { clist = []; closed = s.closed ++ descriptors s.clist })
      × (server_shutdown w s
          ≡ record s { clist = []; task_queue = []; closed = s.closed ++ descriptors s.clist })
unfolding server_shutdown
server_shutdown_lem w s h = (closing, ap server_kill_tasks closing ∙ killing)
  where
    fds : List ℕ
    fds = s.closed ++ descriptors s.clist

    closing : server_close_clients w s ≡ record s { clist = []; closed = fds }
    closing = close_all_lem w s.clist s h

    killing :
        server_kill_tasks (record s { clist = []; closed = fds })
        ≡ record s { clist = []; task_queue = []; closed = fds }
    killing =
        ap (λ q. record s { clist = []; task_queue = q; closed = fds }) (kill_all-nil s.task_queue)
