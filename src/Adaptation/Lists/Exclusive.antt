-- ===== src/Adaptation/Lists/Exclusive.antt =====
-- In the collected mounts, devices and environment variables each entry is owned by a plugin, and no
-- two have the same destination, path or name.
use nri.Base.{String, ◌≡◌, false, inl, inr, Bool-cases, List, [], ◌∷◌, All, string_eq}
use nri.Base.Map.{Map, has_key}
use nri.Base.Exec.{Outcome-cases}
use nri.Api.Types.{Mount, LinuxDevice, KeyValue}
use nri.Api.Removal.{clear_removal_marker}
use nri.Api.Field.{key, mounts, devices, env}
use nri.Api.Owners.Refines.{IsName}
use nri.Api.Owners.Trace.{call}
use nri.Api.Owners.Claims.{
  claim_mount, clear_mount, claim_device, clear_device, claim_env, clear_env,
}
use nri.Adaptation.State.{Creation}
use nri.Adaptation.Entries.{split, clear_removed, claim_added}
use nri.Adaptation.Entries.Owned.{
  live, IsCollected, collect_entries-IsCollected, append_marked-IsCollected,
}
use nri.Adaptation.Entries.Splitting.{split-IsSplit}
use nri.Adaptation.Lists.{lone_removals, adjust_mounts, adjust_devices, adjust_env}

-- A range over a map yields entries of the map.
abbrev pub IsRange : (Map String Mount → List (String × Mount)) → Type 1
IsRange range = (P : String × Mount → Type 0) (m : Map String Mount) → All P m → All P (range m)

abbrev pub MountsCollected : Creation → Type 0
MountsCollected c =
    IsCollected Mount.destination c.container.id (key mounts) c.adjust.mounts c.owners

lone_removals_marked :
    (mod_ : Map String Mount) (del : List (String × Mount))
    → All (λ (k, m). live (Mount.destination m) ≡ false) del
    → All (λ m. live (Mount.destination m) ≡ false) (lone_removals mod_ del)
unfolding lone_removals
lone_removals_marked mod_ [] h = tt
lone_removals_marked mod_ ((k, m) ∷ del) h =
    elim (Bool-cases (has_key (clear_removal_marker m.destination) mod_)) [
      | inl modified ↦ rw (modified, lone_removals) (lone_removals_marked mod_ del h.1)
      | inr alone ↦ rw (alone, lone_removals) (h.0, lone_removals_marked mod_ del h.1)
    ]

-- A plugin's mounts, accepted or not, leave every collected mount that is no removal owned by a
-- plugin, and no two of them at one destination. The plugin's name carries no mark, and `range`
-- yields entries of its map.
pub adjust_mounts-MountsCollected :
    (range : Map String Mount → List (String × Mount)) (ms : List Mount) (plugin : String)
    (c : Creation)
    → IsRange range
    → IsName plugin
    → MountsCollected c
    → MountsCollected (adjust_mounts range ms plugin c).1
unfolding adjust_mounts claim_mount clear_mount call
adjust_mounts-MountsCollected range [] plugin c is_range name h = h
adjust_mounts-MountsCollected range (m ∷ ms) plugin c is_range name h =
    let id = c.container.id in
    let s = split Mount.destination (m ∷ ms) in
    let cleared =
      clear_removed Mount.destination (λ d. clear_mount id d plugin) s.del c.adjust.mounts
        c.owners in
    let claimed = claim_added Mount.destination (λ d. claim_mount id d plugin) s.add cleared in
    let kept =
      collect_entries-IsCollected Mount.destination id (key mounts) plugin name s.del s.add
        c.adjust.mounts c.owners h in
    elim (Outcome-cases claimed.0) [
      | inl (u, granted) ↦
          rw (granted, adjust_mounts)
            (append_marked-IsCollected Mount.destination id (key mounts) plugin name claimed.1.0
              (lone_removals s.mod_ (range s.del)) claimed.1.1
              (lone_removals_marked s.mod_ (range s.del) (
                is_range (λ e. live (Mount.destination e.1) ≡ false) s.del
                  (split-IsSplit Mount.destination (m ∷ ms)).1))
              kept)
      | inr (e, refused) ↦ rw (refused, adjust_mounts) kept
    ]

abbrev pub DevicesCollected : Creation → Type 0
DevicesCollected c =
    IsCollected LinuxDevice.path c.container.id (key devices) c.adjust.linux.devices c.owners

abbrev pub EnvCollected : Creation → Type 0
EnvCollected c = IsCollected KeyValue.key c.container.id (key env) c.adjust.env c.owners

-- A plugin's devices, accepted or not, leave every collected device that is no removal owned by a
-- plugin, and no two of them at one path. The plugin's name carries no mark.
adjust_devices-DevicesCollected :
    (ds : List LinuxDevice) (plugin : String) (c : Creation)
    → IsName plugin
    → DevicesCollected c
    → DevicesCollected (adjust_devices ds plugin c).1
unfolding adjust_devices claim_device clear_device call
adjust_devices-DevicesCollected [] plugin c name h = h
adjust_devices-DevicesCollected (d ∷ ds) plugin c name h =
    let id = c.container.id in
    let s = split LinuxDevice.path (d ∷ ds) in
    let cleared =
      clear_removed LinuxDevice.path (λ p. clear_device id p plugin) s.del c.adjust.linux.devices
        c.owners in
    let claimed = claim_added LinuxDevice.path (λ p. claim_device id p plugin) s.add cleared in
    let kept =
      collect_entries-IsCollected LinuxDevice.path id (key devices) plugin name s.del s.add
        c.adjust.linux.devices c.owners h in
    elim (Outcome-cases claimed.0) [
      | inl (u, granted) ↦ rw (granted, adjust_devices) kept
      | inr (e, refused) ↦ rw (refused, adjust_devices) kept
    ]

-- A plugin's environment variables, accepted or not, leave every collected variable that is no removal
-- owned by a plugin, and no two of them with one name. The plugin's name carries no mark.
adjust_env-EnvCollected :
    (es : List KeyValue) (plugin : String) (c : Creation)
    → IsName plugin
    → EnvCollected c
    → EnvCollected (adjust_env es plugin c).1
unfolding adjust_env claim_env clear_env call
adjust_env-EnvCollected [] plugin c name h = h
adjust_env-EnvCollected (e ∷ es) plugin c name h =
    let id = c.container.id in
    let s = split KeyValue.key (e ∷ es) in
    let cleared =
      clear_removed KeyValue.key (λ k. clear_env id k plugin) s.del c.adjust.env c.owners in
    let claimed = claim_added KeyValue.key (λ k. claim_env id k plugin) s.add cleared in
    let kept =
      collect_entries-IsCollected KeyValue.key id (key env) plugin name s.del s.add c.adjust.env
        c.owners h in
    elim (Outcome-cases claimed.0) [
      | inl (u, granted) ↦ rw (granted, adjust_env) kept
      | inr (e, refused) ↦ rw (refused, adjust_env) kept
    ]

-- A plugin's devices, and its environment variables, accepted or not, leave every collected device and
-- variable that is no removal owned by a plugin, and no two devices at one path and no two variables with
-- one name. The plugin's name carries no mark.
pub adjust_devices-EnvCollected :
    (ds : List LinuxDevice) (es : List KeyValue) (plugin : String) (c : Creation)
    → IsName plugin
    → DevicesCollected c
    → EnvCollected c
    → DevicesCollected (adjust_devices ds plugin c).1 × EnvCollected (adjust_env es plugin c).1
adjust_devices-EnvCollected ds es plugin c name owned_devices owned_env = (
  adjust_devices-DevicesCollected ds plugin c name owned_devices,
  adjust_env-EnvCollected es plugin c name owned_env,
)
