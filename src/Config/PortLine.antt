-- ===== src/Config/PortLine.antt =====
-- A line of sacagawea.conf that sets the port.
