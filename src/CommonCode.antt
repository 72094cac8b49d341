-- ===== src/CommonCode.antt =====
-- file_compare/common/dc_common_error.h: the codes that the functions of the file comparison server
-- return, as the numbers of the enumeration. They are cast to `int` and back.
use wfrest.Base.{ℕ}

abbrev pub CommonCode : Type 0
CommonCode = ℕ

abbrev pub s_success : CommonCode
s_success = 0

abbrev pub e_not_support_file_type : CommonCode
e_not_support_file_type = 2

abbrev pub e_not_impl : CommonCode
e_not_impl = 3

abbrev pub e_not_found : CommonCode
e_not_found = 4

abbrev pub e_arg_invalid : CommonCode
e_arg_invalid = 6

abbrev pub e_os_env_not_found : CommonCode
e_os_env_not_found = 7

abbrev pub e_os_env_mem : CommonCode
e_os_env_mem = 8

abbrev pub e_os_env_stat : CommonCode
e_os_env_stat = 9

abbrev pub e_os_env_open : CommonCode
e_os_env_open = 10

abbrev pub e_os_env_read : CommonCode
e_os_env_read = 11

abbrev pub e_os_env_getpwuid : CommonCode
e_os_env_getpwuid = 14

abbrev pub e_os_env_localtime : CommonCode
e_os_env_localtime = 16

abbrev pub e_dc_content_retry : CommonCode
e_dc_content_retry = 23

abbrev pub e_dc_content_over : CommonCode
e_dc_content_over = 24

abbrev pub e_dc_task_mem_vops_not_over : CommonCode
e_dc_task_mem_vops_not_over = 28
