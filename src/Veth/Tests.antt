-- ===== src/Veth/Tests.antt =====
-- Runs of obtain_container_veth.
use everyday_coding.Base.{
  ◌≡◌, refl, true, false, Option, none, some, List, [], ◌∷◌, arith, if◌then◌else◌,
}
use everyday_coding.Base.Int.{pos, negsuc, to_int, ltb_ℤ}
use everyday_coding.CString.{Str, bytes, same_bytes, atoi}
use everyday_coding.Os.{Os, net, mnt, names}
use everyday_coding.Os.Samples.{machine, poor_machine, machine-IsFresh, poor_machine-IsFresh, idle}
use everyday_coding.Netns.{enter_ns, restore_ns}
use everyday_coding.Veth.{
  deal_eth0_ifindex, find_nic, obtain_veth_with_netns, obtain_container_veth,
  read_iflink_or_ifindex_file, scan, search,
}
use everyday_coding.Veth.Parse.{deal_eth0_ifindex-digits}
use everyday_coding.Veth.Nic.{first_nic, find_nic-first}
use everyday_coding.Veth.Leak.{Leaves, obtain_container_veth-Leaves, obtain_container_veth-leak}

abbrev found : Option (Option Str) × Os
found =
    obtain_container_veth machine [] false (bytes "/proc/5/ns/mnt") (some (bytes "/proc/5/ns/net"))
      idle

veth_found :
    (found.0 ≡ some (some (bytes "veth7")))
    × (found.1.fds ≡ idle.fds)
    × (found.1.net_ns ≡ idle.net_ns)
unfolding obtain_container_veth obtain_veth_with_netns enter_ns find_nic read_iflink_or_ifindex_file
    deal_eth0_ifindex atoi to_int scan search restore_ns
veth_found = (refl, refl, refl)

deal_eth0_ifindex-digits_example :
    deal_eth0_ifindex true (bytes "eth0@if10:") 10 ≡ some (atoi (bytes "10"))
deal_eth0_ifindex-digits_example =
    deal_eth0_ifindex-digits true (bytes "if10") [] 10 refl (omega arith) (omega arith)

abbrev files : Str → Option Str
files path =
    if same_bytes path (bytes "/sys/class/net/veth7/ifindex")
    then some (bytes "10\n")
    else some (bytes "4\n")

abbrev entries : List Str
entries = bytes "." ∷ bytes "lo" ∷ bytes "veth7" ∷ []

find_nic-first_example :
    (find_nic machine [] (pos 10) idle).0 ≡ some (some (first_nic files [] (pos 10) entries))
find_nic-first_example =
    find_nic-first files [] machine (record { reads = λ s path. refl }) (pos 10) idle entries refl
      (refl, (refl, (refl, tt)))

obtain_container_veth-Leaves_example : Leaves idle (
    obtain_container_veth machine [] false
      (bytes "/proc/5/ns/mnt")
      (some (bytes "/proc/5/ns/net"))
      idle)
obtain_container_veth-Leaves_example =
    obtain_container_veth-Leaves machine machine-IsFresh [] false (bytes "/proc/5/ns/mnt")
      (some (bytes "/proc/5/ns/net")) idle

abbrev turned_away : Os
turned_away = (enter_ns poor_machine net (bytes "/proc/5/ns/net") idle).1

abbrev inside : Os
inside = (enter_ns poor_machine mnt (bytes "/proc/5/ns/mnt") turned_away).1

no_index :
    obtain_veth_with_netns poor_machine [] false (some (bytes "/proc/5/ns/net")) idle
    ≡ (some (negsuc 0), turned_away)
unfolding obtain_veth_with_netns enter_ns
no_index = refl

moved : enter_ns poor_machine mnt (bytes "/proc/5/ns/mnt") turned_away ≡ (some 9, inside)
unfolding enter_ns
moved = refl

not_linked :
    ltb_ℤ
      (pos 0)
      (read_iflink_or_ifindex_file poor_machine [] (bytes "/sys/class/net/eth0/iflink") inside).0
    ≡ false
unfolding read_iflink_or_ifindex_file atoi to_int
not_linked = refl

obtain_container_veth-leak_example :
    let (r, t) =
      obtain_container_veth poor_machine [] false
        (bytes "/proc/5/ns/mnt")
        (some (bytes "/proc/5/ns/net"))
        idle in
    (r ≡ some none)
    × (t.fds ≡ 9 ∷ idle.fds)
    × (t.mnt_ns ≡ names turned_away (bytes "/proc/5/ns/mnt"))
    × (t.refers 9 ≡ turned_away.mnt_ns)
obtain_container_veth-leak_example =
    obtain_container_veth-leak poor_machine poor_machine-IsFresh [] false (bytes "/proc/5/ns/mnt")
      (some (bytes "/proc/5/ns/net")) idle turned_away inside 9 no_index moved not_linked
