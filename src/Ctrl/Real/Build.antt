-- ===== src/Ctrl/Real/Build.antt =====
-- bsp/drone_ctrl.c, PSDK_REAL: the operations behind bsp/drone_ctrl.h, gathered as its interface.
use psdk_orangepi.Floating.{Floating}
use psdk_orangepi.Ctrl.{DroneCtrl}
use psdk_orangepi.Ctrl.Real.{Sdk}
use psdk_orangepi.Ctrl.Real.Topics.{Real}
use psdk_orangepi.Ctrl.Real.Reads
use psdk_orangepi.Ctrl.Real.Writes
use psdk_orangepi.Ctrl.Real.Waypoint.{upload_kmz}

abbrev pub real_ctrl : {fp : Floating} → Sdk fp → DroneCtrl fp (Real fp)
real_ctrl sdk = record {
  get_telemetry = Reads.get_telemetry;
  get_battery_info = Reads.get_battery_info;
  get_gimbal_angle = Reads.get_gimbal_angle;
  get_camera_state = Reads.get_camera_state sdk;
  get_rtk_status = Reads.get_rtk_status;
  set_rth_altitude = Writes.set_rth_altitude sdk;
  set_gimbal_angle = Writes.set_gimbal_angle sdk;
  set_camera_mode = Writes.set_camera_mode sdk;
  set_camera_zoom = Writes.set_camera_zoom sdk;
  set_home_location = Writes.set_home_location sdk;
  set_obstacle_avoidance = Writes.set_obstacle_avoidance sdk;
  shoot_photo = Writes.shoot_photo sdk;
  start_recording = Writes.start_recording sdk;
  stop_recording = Writes.stop_recording sdk;
  upload_kmz = upload_kmz sdk;
}
