-- ===== src/Library/Shares/Rounds.antt =====
-- One round of CaptureCxx::Update on the messages that its handles get: the loop over the handles of
-- src/capturecxx.cpp, and what stands before it.
use capture.Prelude.{
  ℕ, ◌≡◌, refl, sym, ap, ◌∙◌, Bool, true, false, List, [], ◌∷◌, some, All, map, find, nat_eq,
}
use mathlib.Core.Option
use capture.Text.{Str}
use capture.Inet.{Inet}
use capture.Outcome.{Run, finished, ◌>>=◌}
use capture.Os.{Os}
use capture.Inode.{Owner, owner, failed, get_pid_by_ip}
use capture.Handle.{Pcap, CapHandle, dispatch}
use capture.Capture.{Capture}
use capture.Capture.Account.{put_process}
use capture.Capture.Flows.{with_bytes}
use capture.Protocol.{handle_packet, handle_packets}
use capture.Protocol.Datagrams.{ends_of}
use capture.Library.{sink, poll, Polled}
use capture.Library.Delivery.{frame_charged, frame_unowned}
use capture.Library.Shares.{
  Message, message_frame, IsCarried, is_sent, message_key, Table, IsTabled, share, Follows,
  Follows-id, Follows-trans, put-Follows, shares, Counts, IsKnown, IsKnown-Follows, AllKnown,
  AllKnown-Follows, all_messages, shares-append, Delivers,
}
use capture.Inode.Whole.{Shown, ShowsSockets, answer, refresh-shown}
use capture.Library.{refresh_inodes, settle, update}
use capture.Capture.Totals.{update_pids, add_pids}
use capture.Text.{codes}
use capture.Os.{DirEntry}
use capture.Outcome.Rules.{finished-bind}
use capture.Inode.{refresh}

module _ (inet : Inet) (os : Os) (pcap : Pcap) (lookup : Str → Owner) where
  message_counted :
      (h : CapHandle) (m : Message) (s : Capture) (o : Owner)
      → h.callback ≡ true
      → IsCarried h.linktype m
      → s.packet_callback ≡ false
      → get_pid_by_ip s.inodes (message_key inet s.devices m) ≡ o
      → IsTabled s.processes o
      → (qs : Table) × (handle_packet (sink inet os pcap) h (message_frame m) s
          ≡ finished (record {
            ctx = record h { context = ends_of m.datagram };
            state = record s { processes = qs };
          }))
        × Follows (share o (is_sent s.devices m) m.size) s.processes qs
  message_counted h m s (failed code) cb (lt, v, t) c o i = (
    s.processes,
    frame_unowned inet os pcap h m.link m.datagram m.sport m.dport m.rest m.size m.time s code cb lt
        v t o,
    Follows-id s.processes,
  )
  message_counted h m s (owner pid) cb (lt, v, t) c o (p, e) = (
    put_process pid (with_bytes (is_sent s.devices m) m.size p) s.processes,
    frame_charged inet os pcap h m.link m.datagram m.sport m.dport m.rest m.size m.time s pid p cb
        lt v t c o e,
    put-Follows pid m.size (is_sent s.devices m) p s.processes e,
  )

  -- The messages of one call of pcap_dispatch.
  messages_counted :
      (h : CapHandle) (ms : List Message) (s : Capture)
      → h.callback ≡ true
      → All (IsCarried h.linktype) ms
      → Counts lookup s
      → All (IsKnown inet lookup s.devices s.processes) ms
      → (qs : Table) × (t : CapHandle) × (handle_packets
            (sink inet os pcap)
            h
            (map message_frame ms)
            s
          ≡ finished (record { ctx = t; state = record s { processes = qs } }))
        × Follows (shares inet s.devices lookup ms) s.processes qs
  unfolding handle_packets
  messages_counted h [] s cb c r i = (s.processes, h, refl, Follows-id s.processes)
  messages_counted h (m ∷ ms) s cb c r i =
      let o = lookup (message_key inet s.devices m) in
      let (qs, e, f) = message_counted h m s o cb c.0 r.off (r.lookups _) i.0 in
      let (us, t, g, k) =
        messages_counted (record h { context = ends_of m.datagram }) ms
          (record s { processes = qs }) cb c.1 (record { off = r.off; lookups = r.lookups })
          (IsKnown-Follows inet lookup s.devices _ s.processes qs ms f i.1) in
      (us, t, rw e g, Follows-trans _ _ _ s.processes qs us (λ j p. refl) f k)

module _ (inet : Inet) (os : Os) (pcap : Pcap) (lookup : Str → Owner) (cnt : ℕ) where
  pub poll_counted :
      (xs : List (CapHandle × List Message)) (ret : ℕ) (s : Capture)
      → All (Delivers pcap cnt) xs
      → Counts lookup s
      → AllKnown inet lookup s.devices s.processes xs
      → (d : Polled) × (qs : Table) × (poll inet os pcap cnt (map (λ x. x.0) xs) ret s ≡ finished d)
        × (d.state ≡ record s { processes = qs })
        × Follows (shares inet s.devices lookup (all_messages xs)) s.processes qs
  unfolding poll
  poll_counted [] ret s c r i = (_, s.processes, refl, refl, Follows-id s.processes)
  poll_counted ((h, ms) ∷ xs) ret s c r i =
      let (qs, t, e, f) =
        messages_counted inet os pcap lookup h ms s c.0.callback c.0.carried r i.0 in
      let (d, us, g, same, k) =
        poll_counted xs (dispatch pcap h cnt).ret (record s { processes = qs }) c.1
          (record { off = r.off; lookups = r.lookups })
          (AllKnown-Follows inet lookup s.devices _ s.processes qs xs f i.1) in
      (
        record d { polled = t ∷ d.polled },
        us,
        rw (c.0.frames, e, g) refl,
        same,
        Follows-trans _ _ _ s.processes qs us
            (shares-append inet s.devices lookup ms (all_messages xs)) f k,
      )

update_pids-shown :
    (os : Os) (s : Capture) (es : List DirEntry) (pids : List ℕ)
    → os.dir (codes "/proc") ≡ some es
    → add_pids es [] ≡ some pids
    → update_pids os s ≡ finished (record { ret = 0; state = record s { pids = pids } })
unfolding update_pids
update_pids-shown os s es pids e f = rw (e, update_pids, f) refl

module _ (inet : Inet) (os : Os) (pcap : Pcap) (cnt : ℕ) (d : Shown) where
  -- The numbers of the processes whose open files are shown.
  abbrev numbers : List ℕ
  numbers = map (λ x. x.0) d.fds

  -- Refresh and the loop over the handles.
  abbrev round : Capture → Run Polled
  round s = do r ← refresh_inodes inet os s; poll inet os pcap cnt r.handles 0 r

  round_counted :
      (xs : List (CapHandle × List Message)) (s : Capture)
      → ShowsSockets os d
      → s.pids ≡ numbers
      → s.handles ≡ map (λ x. x.0) xs
      → s.packet_callback ≡ false
      → All (Delivers pcap cnt) xs
      → AllKnown inet (answer inet os s.devices d) s.devices s.processes xs
      → (q : Polled) × (round s ≡ finished q)
        × (q.state ≡ record s { inodes = q.state.inodes; processes = q.state.processes })
        × Follows
            (shares inet s.devices (answer inet os s.devices d) (all_messages xs))
            s.processes
            q.state.processes
  unfolding refresh_inodes
  round_counted xs s h e hs off c i =
      let (n, f, g) = refresh-shown inet os s.devices d h in
      let r : Capture = record s { inodes = n } in
      let (q, qs, polled, same, k) =
        poll_counted inet os pcap (answer inet os s.devices d) cnt xs 0 r c
          (record { off = off; lookups = g }) i in
      (
        q,
        rw (ap (refresh inet os s.devices) e ∙ f)
            (ap (λ t. poll inet os pcap cnt t 0 r) hs ∙ polled),
        same ∙ ap (λ t. record s { inodes = t.inodes; processes = t.processes }) (sym same),
        λ j. ap (λ t. find j t.processes) same ∙ k j,
      )

  -- An Update without a packet callback, on a host that shows its four tables of sockets and the open files of the
  -- processes in /proc in the layout of proc(5), whose handles have their callback and get frames that carry TCP
  -- or UDP over IPv4 or IPv6: if each frame belongs to no process, or to one of the table, then what is left of
  -- Update, from GetCpuTotal on, runs on a state in which each process of the table has sent and received more by
  -- the lengths of just its frames, and is unchanged else, and in which there is no other process. A frame belongs
  -- to the process that the tables and the open files give for its key, the local end first, and is sent if its
  -- source is an address of a device. Nothing else has changed but `packetIdx`, the numbers, the sockets and the
  -- handles.
  pub update_charges :
      (es : List DirEntry) (xs : List (CapHandle × List Message)) (all : Bool) (s : Capture)
      → os.dir (codes "/proc") ≡ some es
      → add_pids es [] ≡ some (map (λ x. x.0) d.fds)
      → ShowsSockets os d
      → s.handles ≡ map (λ x. x.0) xs
      → s.packet_callback ≡ false
      → All (Delivers pcap cnt) xs
      → AllKnown inet (answer inet os s.devices d) s.devices s.processes xs
      → (q : Polled) × (update inet os pcap cnt all s
          ≡ settle inet os pcap q.last (record q.state { handles = q.polled }))
        × (q.state ≡ record s {
          packet_idx = 0;
          pids = map (λ x. x.0) d.fds;
          inodes = q.state.inodes;
          processes = q.state.processes;
        })
        × ((k : ℕ)
            → find k q.state.processes
              ≡ Option.map
                  (shares inet s.devices (answer inet os s.devices d) (all_messages xs) k)
                  (find k s.processes))
  unfolding update
  update_charges es xs all s proc pids h hs off c i =
      let numbered = update_pids-shown os (record s { packet_idx = 0 }) es numbers proc pids in
      let (q, e, same, f) =
        round_counted xs (record s { packet_idx = 0; pids = numbers }) h refl hs off c i in
      (
        q,
        rw numbered (
            finished-bind (refresh_inodes inet os _) (λ r. poll inet os pcap cnt r.handles 0 r)
              (λ t. settle inet os pcap t.last (record t.state { handles = t.polled })) q e),
        same,
        f,
      )
