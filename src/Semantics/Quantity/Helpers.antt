-- ===== src/Semantics/Quantity/Helpers.antt =====
-- The helpers that name a quantity, of leapp/utils/semantics.py. The name of the tensor is left out.
use leapp.Common.{ℕ, Option, none, List}
use leapp.Common.Result.{Result}
use leapp.Semantics.{Label, AxesValue, Setpoint, Expressed}
use leapp.Semantics.Annotation.{Annotation}
use leapp.Semantics.Quantity.{annotate}

-- A helper's tensor, axes and set point.
abbrev pub Helper : Type 0
Helper = Option (List ℕ) → Option AxesValue → Option Setpoint → Result Annotation

unfoldable pub joint_position : Helper
joint_position ref axes is_setpoint = annotate "joint/position" ref axes is_setpoint none none

unfoldable pub joint_velocity : Helper
joint_velocity ref axes is_setpoint = annotate "joint/velocity" ref axes is_setpoint none none

unfoldable pub joint_effort : Helper
joint_effort ref axes is_setpoint = annotate "joint/effort" ref axes is_setpoint none none

unfoldable pub vector3d : Helper
vector3d ref axes is_setpoint = annotate "vector3d" ref axes is_setpoint none none

unfoldable pub kp : Helper
kp ref axes is_setpoint = annotate "kp" ref axes is_setpoint none none

unfoldable pub kd : Helper
kd ref axes is_setpoint = annotate "kd" ref axes is_setpoint none none

unfoldable pub image : Helper
image ref axes is_setpoint = annotate "image" ref axes is_setpoint none none

unfoldable pub frame_pose : Option Label → Helper
frame_pose reference ref axes is_setpoint =
    annotate "frame/pose" ref axes is_setpoint reference none

unfoldable pub frame_position : Option Label → Helper
frame_position reference ref axes is_setpoint =
    annotate "frame/position" ref axes is_setpoint reference none

unfoldable pub frame_orientation : Option Label → Helper
frame_orientation reference ref axes is_setpoint =
    annotate "frame/orientation" ref axes is_setpoint reference none

unfoldable pub frame_twist : Option Label → Option Expressed → Helper
frame_twist reference expressed_in ref axes is_setpoint =
    annotate "frame/twist" ref axes is_setpoint reference expressed_in

unfoldable pub frame_linear_velocity : Option Label → Option Expressed → Helper
frame_linear_velocity reference expressed_in ref axes is_setpoint =
    annotate "frame/linear_velocity" ref axes is_setpoint reference expressed_in

unfoldable pub frame_angular_velocity : Option Label → Option Expressed → Helper
frame_angular_velocity reference expressed_in ref axes is_setpoint =
    annotate "frame/angular_velocity" ref axes is_setpoint reference expressed_in

unfoldable pub frame_acceleration : Option Label → Option Expressed → Helper
frame_acceleration reference expressed_in ref axes is_setpoint =
    annotate "frame/acceleration" ref axes is_setpoint reference expressed_in

unfoldable pub frame_linear_acceleration : Option Label → Option Expressed → Helper
frame_linear_acceleration reference expressed_in ref axes is_setpoint =
    annotate "frame/linear_acceleration" ref axes is_setpoint reference expressed_in

unfoldable pub frame_angular_acceleration : Option Label → Option Expressed → Helper
frame_angular_acceleration reference expressed_in ref axes is_setpoint =
    annotate "frame/angular_acceleration" ref axes is_setpoint reference expressed_in

unfoldable pub frame_wrench : Option Expressed → Helper
frame_wrench expressed_in ref axes is_setpoint =
    annotate "frame/wrench" ref axes is_setpoint none expressed_in

unfoldable pub force_application_position : Option Expressed → Helper
force_application_position expressed_in ref axes is_setpoint =
    annotate "frame/force_application_position" ref axes is_setpoint none expressed_in
