-- ===== src/Ip/Tests.antt =====
-- Runs of obtain_container_ip.
use everyday_coding.Base.{◌≡◌, refl, none, some, [], if◌then◌else◌}
use everyday_coding.Base.Int.{ℤ, pos}
use everyday_coding.CString.{Str, bytes, same_bytes, is_empty}
use everyday_coding.Os.{Os, net, Kernel}
use everyday_coding.Os.Samples.{machine, machine-IsFresh, idle}
use everyday_coding.Netns.{enter_ns, restore_ns}
use everyday_coding.Netns.Even.{IsBalanced}
use everyday_coding.Ip.{is_valid_ip, commands, try_commands, obtain_container_ip}
use everyday_coding.Ip.Chosen.{chosen, obtain_container_ip-chosen}
use everyday_coding.Ip.Balance.{obtain_container_ip-IsBalanced}

abbrev pton : Str → ℤ
pton ip = if same_bytes ip (bytes "10.0.0.5") then pos 1 else pos 0

abbrev netns : Str
netns = bytes "/proc/5/ns/net"

address_found : (obtain_container_ip pton machine netns idle).0 ≡ some (bytes "10.0.0.5")
unfolding obtain_container_ip enter_ns restore_ns try_commands is_valid_ip
address_found = refl

abbrev inside : Os
inside = (enter_ns machine net netns idle).1

moved : enter_ns machine net netns idle ≡ (some 9, inside)
unfolding enter_ns
moved = refl

-- Every command prints 127.0.0.1.
abbrev local_machine : Kernel
local_machine = record machine { popen_answer = λ s command. some (bytes "127.0.0.1\n") }

local_address_returned :
    (obtain_container_ip pton local_machine netns idle).0 ≡ some (bytes "127.0.0.1")
unfolding obtain_container_ip enter_ns restore_ns try_commands is_valid_ip
local_address_returned = refl

obtain_container_ip-chosen_example : (obtain_container_ip pton machine netns idle).0 ≡ (
    let ip = chosen pton (λ command. machine.popen_answer idle command) [] commands in
    if is_empty ip then none else some ip)
obtain_container_ip-chosen_example =
    obtain_container_ip-chosen pton (λ command. machine.popen_answer idle command) machine
      (record { runs = λ s command. refl }) netns idle inside 9 moved

obtain_container_ip-IsBalanced_example :
    IsBalanced idle (obtain_container_ip pton machine netns idle).1
obtain_container_ip-IsBalanced_example =
    obtain_container_ip-IsBalanced pton machine machine-IsFresh netns idle
