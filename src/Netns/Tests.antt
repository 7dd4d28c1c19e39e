-- ===== src/Netns/Tests.antt =====
-- A switch to a namespace and back.
use everyday_coding.Base.{◌≡◌, refl, some, if◌then◌else◌}
use everyday_coding.CString.{bytes}
use everyday_coding.Os.{Os, net, names}
use everyday_coding.Os.Samples.{machine, machine-IsFresh, idle}
use everyday_coding.Netns.{enter_ns, restore_ns}
use everyday_coding.Netns.Switch.{ns_of, IsSameBut}
use everyday_coding.Netns.Restore.{IsQuiet-refl, restore_ns-enter_ns}

abbrev inside : Os
inside = (enter_ns machine net (bytes "/proc/5/ns/net") idle).1

moved : enter_ns machine net (bytes "/proc/5/ns/net") idle ≡ (some 9, inside)
unfolding enter_ns
moved = refl

there : inside.net_ns ≡ bytes "/proc/5/ns/net"
unfolding enter_ns
there = refl

restore_ns-enter_ns_example :
    let (ok, t) = restore_ns machine net 9 inside in
    IsSameBut idle.fds net
      (if ok then ns_of net idle else names idle (bytes "/proc/5/ns/net"))
      (record idle { streams = inside.streams; dirs = inside.dirs; blocks = inside.blocks })
      t
restore_ns-enter_ns_example =
    restore_ns-enter_ns machine machine-IsFresh net (bytes "/proc/5/ns/net") idle 9 inside moved
      inside (IsQuiet-refl inside)
