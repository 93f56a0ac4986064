-- ===== src/Adaptation/Adjust.antt =====
-- `result.adjust` (pkg/adaptation/result.go): one plugin's adjustment of the container that is created.
use nri.Base.{String, Option, none, some, List}
use nri.Base.Map.{Map}
use nri.Base.Exec.{Exec, ◌>>◌, done}
use nri.Api.Types.{Mount, LinuxNamespace, LinuxContainerAdjustment, ContainerAdjustment}
use nri.Adaptation.State.{Creation}
use nri.Adaptation.Lists.{
  adjust_mounts, adjust_devices, adjust_env, adjust_cdi_devices, adjust_rlimits, adjust_namespaces,
}
use nri.Adaptation.Maps.{adjust_annotations, adjust_sysctl, adjust_linux_net_devices}
use nri.Adaptation.Settings.{
  adjust_args, adjust_hooks, adjust_cgroups_path, adjust_oom_score_adj, adjust_io_priority,
  adjust_seccomp_policy, adjust_linux_scheduler, adjust_rdt,
}
use nri.Adaptation.Limits.{adjust_resources}

-- The orders in which Go ranges over the maps that `adjustMounts` and `adjustNamespaces` make.
pub record Ranges : Type 0 where
  pub mounts : Map String Mount → List (String × Mount)
  pub namespaces : Map String LinuxNamespace → List LinuxNamespace

unfoldable pub adjust_linux :
    Ranges → Option LinuxContainerAdjustment → String → Exec Creation (Unit {0})
adjust_linux ranges none plugin = done
adjust_linux ranges (some l) plugin = do
  adjust_devices l.devices plugin
  adjust_resources l.resources plugin
  adjust_cgroups_path l.cgroups_path plugin
  adjust_oom_score_adj l.oom_score_adj plugin
  adjust_io_priority l.io_priority plugin
  adjust_seccomp_policy l.seccomp_policy plugin
  adjust_namespaces ranges.namespaces l.namespaces plugin
  adjust_sysctl l.sysctl plugin
  adjust_linux_net_devices l.net_devices plugin
  adjust_linux_scheduler l.scheduler plugin
  adjust_rdt l.rdt plugin

unfoldable pub adjust : Ranges → ContainerAdjustment → String → Exec Creation (Unit {0})
adjust ranges rpl plugin = do
  adjust_annotations rpl.annotations plugin
  adjust_mounts ranges.mounts rpl.mounts plugin
  adjust_env rpl.env plugin
  adjust_args rpl.args plugin
  adjust_hooks rpl.hooks plugin
  adjust_linux ranges rpl.linux plugin
  adjust_rlimits rpl.rlimits plugin
  adjust_cdi_devices rpl.cdi_devices plugin
