-- ===== src/Examples/Rounds.antt =====
-- A round of an update on a host with one connection: the process with its socket sends a packet.
use capture.Prelude.{
  ◌≡◌, refl, sym, subst, ap, ◌∙◌, [], ◌∷◌, some, find, nat_eq, true, false, inl, str_eq,
}
use capture.Text.{to_string}
use capture.Inet.{ntop4}
use capture.Device.{contains4}
use capture.ProcessFields.{CapProcess, new_process}
use capture.Handle.{Pcap, dispatch}
use capture.Capture.{Capture}
use capture.Capture.Totals.{add_pids}
use capture.Protocol.Datagrams.{LinkLayer, v4}
use capture.Library.{fresh, update, settle, Polled}
use capture.Library.Shares.{Message, message_frame, share, Delivers, IsTabled}
use capture.Library.Shares.Rounds.{update_charges}
use capture.Examples.Hosts.{dotted, eth0, noon}
use capture.Examples.Packets.{link_header, ip_header}
use capture.Examples.Sessions.{one_frame, ready_handle}
use capture.Examples.Tables.{connected, shown, proc_entries, connected-Shows, owner_answered}

-- Port 40000 of the host to port 80 of its peer.
abbrev sent_message : Message
sent_message = record {
  link = LinkLayer.ethernet link_header;
  datagram = v4 ip_header;
  sport = (156, 64);
  dport = (0, 80);
  rest = [];
  size = 60;
  time = noon;
}

abbrev one_message : Pcap
one_message = record one_frame {
  pcap_dispatch = λ p cnt. record { frames = message_frame sent_message ∷ []; ret = 1 };
}

abbrev sender : CapProcess
sender = record (new_process 7) { send = 40 }

abbrev before : Capture
before = record fresh {
  devices = eth0 ∷ [];
  handles = ready_handle ∷ [];
  processes = (7, sender) ∷ [];
  process_callback = true;
}

one_message-Delivers : Delivers one_message 10 (ready_handle, sent_message ∷ [])
unfolding dispatch
one_message-Delivers = record {
  callback = refl;
  frames = refl;
  carried = ((refl, tt, inl refl), tt);
}

update_charges_example :
    (q : Polled) × (update dotted connected one_message 10 false before
      ≡ settle dotted connected one_message q.last (record q.state { handles = q.polled }))
    × (find 7 q.state.processes ≡ some (record sender { send = 100 }))
unfolding str_eq contains4 ntop4 to_string find add_pids
update_charges_example =
    let (q, e, same, f) =
      update_charges dotted connected one_message 10 shown proc_entries
        ((ready_handle, sent_message ∷ []) ∷ []) false before refl refl connected-Shows refl refl
        (one_message-Delivers, tt)
        ((subst (IsTabled ((7, sender) ∷ [])) (sym owner_answered) (sender, refl), tt), tt) in
    (q, e, f 7 ∙ ap (λ o. some (share o true 60 7 sender)) owner_answered)
